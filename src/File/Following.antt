-- ===== src/File/Following.antt =====
-- run_writer/in_progress_file.rs: one module of events in a file, whatever the file takes.
use kafka_file_writer.Base.{
  zero, suc, String, ◌≡◌, refl, sym, ap, ◌∙◌, some, List, [], ◌∷◌, map, get_elem?,
}
use kafka_file_writer.Base.Equality.{string_eq}
use kafka_file_writer.Message.{RunStop}
use kafka_file_writer.Subscription.{SubscriptionKey}
use kafka_file_writer.Router.{WriterId}
use kafka_file_writer.Writer.Nxeventdata.{Nxeventdata}
use kafka_file_writer.Writer.Nxeventdata.Records.{SameRun}
use kafka_file_writer.Writer.Registry.{AnyWriter, nxeventdata, ixseblock}
use kafka_file_writer.File.{InProgressFile}
use kafka_file_writer.File.Sync.{IsInSync}
use kafka_file_writer.File.Calls.{Apart}
use kafka_file_writer.File.Writers.{
  Slot, SameModule, AllContinue, AllContinue-after, AllContinue-before, stop_writer, stop_placed,
}

module _ {G : Type 0} where
  SameModule-after :
      (x y : AnyWriter G) (v : Nxeventdata G)
      → SameModule x y
      → x ≡ nxeventdata v
      → (u : Nxeventdata G) × (y ≡ nxeventdata u) × SameRun v u
  SameModule-after (ixseblock w) y v same is = absurd (cc)
  SameModule-after (nxeventdata w) (ixseblock u) v same is = absurd same
  SameModule-after (nxeventdata w) (nxeventdata u) v same is =
      let e : w ≡ v = cc in (u, refl, rw (sym e) same)

  SameModule-before :
      (x y : AnyWriter G) (u : Nxeventdata G)
      → SameModule x y
      → y ≡ nxeventdata u
      → (v : Nxeventdata G) × (x ≡ nxeventdata v) × SameRun v u
  SameModule-before x (ixseblock w) u same is = absurd (cc)
  SameModule-before (ixseblock v) (nxeventdata w) u same is = absurd same
  SameModule-before (nxeventdata v) (nxeventdata w) u same is =
      let e : w ≡ u = cc in (v, refl, rw (sym e) same)

  stop_writer-before :
      (run_stop : RunStop) (x : AnyWriter G) (u : Nxeventdata G)
      → stop_writer run_stop x ≡ nxeventdata u
      → (v : Nxeventdata G) × (x ≡ nxeventdata v) × (u.group ≡ v.group)
  stop_writer-before run_stop (ixseblock v) u is = absurd (cc)
  stop_writer-before run_stop (nxeventdata v) u is =
      let e : record v { run_stop_time_ms = run_stop.stop_time } ≡ u = cc in
      (v, refl, ap Nxeventdata.group (sym e))

  -- The writer with an index is a module of a run, which asks for a topic, and no other module of
  -- events stands in its group.
  pub record Follows (g : G) (j : WriterId) (topic : String) (w : Nxeventdata G)
      (f : InProgressFile G (AnyWriter G)) : Type 0 where
    pub sync : IsInSync f
    pub slot : Slot G
    pub module_ : Nxeventdata G
    pub at : get_elem? f.writers j ≡ some slot
    pub is : slot.writer ≡ nxeventdata module_
    pub same_run : SameRun w module_
    pub asks : slot.subscriptions ≡ record { topic = topic; key = SubscriptionKey.all } ∷ []
    pub apart : Apart g j f.writers

  Apart-continue :
      (g : G) (j : WriterId) (ps qs : List (Slot G))
      → AllContinue ps qs
      → Apart g j ps
      → Apart g j qs
  Apart-continue g j ps qs all apart i q ne at u is in_g =
      let (p, at_p, (same, subs)) = AllContinue-before ps qs i q all at in
      let (v, p_is, (groups, _, _)) = SameModule-before p.writer q.writer u same is in
      apart i p ne at_p v p_is (sym groups ∙ in_g)

  pub continue-Follows :
      (g : G) (j : WriterId) (topic : String) (w : Nxeventdata G)
      (f f' : InProgressFile G (AnyWriter G))
      → IsInSync f'
      → AllContinue f.writers f'.writers
      → Follows g j topic w f
      → Follows g j topic w f'
  continue-Follows g j topic w f f' sync all old =
      let (q, at_q, (same, subs)) = AllContinue-after f.writers f'.writers j old.slot all old.at in
      let (u, q_is, (a, b, c)) =
        SameModule-after old.slot.writer q.writer old.module_ same old.is in
      let (a', b', c') = old.same_run in
      record {
        sync = sync;
        slot = q;
        module_ = u;
        at = at_q;
        is = q_is;
        same_run = (a ∙ a', b ∙ b', c ∙ c');
        asks = subs ∙ old.asks;
        apart = Apart-continue g j f.writers f'.writers all old.apart;
      }

  get_elem?-stop :
      (run_stop : RunStop) (ps : List (Slot G)) (i : WriterId) (p : Slot G)
      → get_elem? ps i ≡ some p
      → get_elem? (map (stop_placed run_stop) ps) i ≡ some (stop_placed run_stop p)
  get_elem?-stop run_stop [] i p at = absurd (cc)
  get_elem?-stop run_stop (q ∷ ps) zero p at = let is : q ≡ p = cc in rw is
  get_elem?-stop run_stop (q ∷ ps) (suc i) p at = get_elem?-stop run_stop ps i p at

  stop-get_elem? :
      (run_stop : RunStop) (ps : List (Slot G)) (i : WriterId) (q : Slot G)
      → get_elem? (map (stop_placed run_stop) ps) i ≡ some q
      → (p : Slot G) × (get_elem? ps i ≡ some p) × (q ≡ stop_placed run_stop p)
  stop-get_elem? run_stop [] i q at = absurd (cc)
  stop-get_elem? run_stop (p ∷ ps) zero q at = (p, refl, cc)
  stop-get_elem? run_stop (p ∷ ps) (suc i) q at = stop-get_elem? run_stop ps i q at

  pub stop-Follows :
      (g : G) (j : WriterId) (topic : String) (w : Nxeventdata G) (run_stop : RunStop)
      (f f' : InProgressFile G (AnyWriter G))
      → IsInSync f'
      → f'.writers ≡ map (stop_placed run_stop) f.writers
      → Follows g j topic w f
      → Follows g j topic (record w { run_stop_time_ms = run_stop.stop_time }) f'
  stop-Follows g j topic w run_stop f f' sync told old =
      let (a, b, c) = old.same_run in
      record {
        sync = sync;
        slot = stop_placed run_stop old.slot;
        module_ = record old.module_ { run_stop_time_ms = run_stop.stop_time };
        at = ap (λ ps. get_elem? ps j) told ∙ get_elem?-stop run_stop f.writers j old.slot old.at;
        is = ap (stop_writer run_stop) old.is;
        same_run = (a, b, refl);
        asks = old.asks;
        apart = λ i q ne at u is in_g.
            let (p, at_p, q_is) =
              stop-get_elem? run_stop f.writers i q (ap (λ ps. get_elem? ps i) (sym told) ∙ at) in
            let (v, p_is, groups) =
              stop_writer-before run_stop p.writer u
                (ap (λ (x : Slot G). x.writer) (sym q_is) ∙ is) in
            old.apart i p ne at_p v p_is (sym groups ∙ in_g);
      }
