-- ===== src/File/Sync.antt =====
-- run_writer/in_progress_file.rs: the router of a file against the list of its writers.
use mathlib.Core.List.{append-nil, append_assoc}
use kafka_file_writer.Base.{
  ℕ, zero, suc, ◌+◌, ◌≡◌, refl, sym, ap, ◌∙◌, List, [], ◌∷◌, ◌++◌, length, arith, some, get_elem?,
  set,
}
use kafka_file_writer.Subscription.{Subscription}
use kafka_file_writer.Router
use kafka_file_writer.Router.{MessageRouter, WriterId}
use kafka_file_writer.Router.Routes.{Entry, subscribe_all, subscribe_all-append}
use kafka_file_writer.Placed.{PlacedWriter}
use kafka_file_writer.File.{InProgressFile, subscribe_each, add_placed_writer}

-- The subscriptions of one writer.
abbrev pub tag : WriterId → List Subscription → List Entry
tag i [] = []
tag i (sub ∷ subs) = (i, sub) ∷ tag i subs

-- Those of all writers, from index `i` on.
abbrev pub entries_from : ℕ → List (List Subscription) → List Entry
entries_from i [] = []
entries_from i (subs ∷ rest) = tag i subs ++ entries_from (suc i) rest

module _ {G W : Type 0} where
  abbrev pub requests : List (PlacedWriter G W) → List (List Subscription)
  requests [] = []
  requests (w ∷ ws) = w.subscriptions ∷ requests ws

  -- The router is that of the writers' subscriptions, made in order.
  abbrev pub IsInSync : InProgressFile G W → Type 0
  IsInSync f = f.router ≡ subscribe_all (entries_from 0 (requests f.writers)) Router.default

subscribe_each-eq :
    (i : WriterId) (subs : List Subscription) (r : MessageRouter)
    → subscribe_each i subs r ≡ subscribe_all (tag i subs) r
unfolding subscribe_each subscribe_all
subscribe_each-eq i [] r = refl
subscribe_each-eq i (sub ∷ subs) r = subscribe_each-eq i subs (Router.subscribe i sub r)

entries_from-snoc :
    (i n : ℕ) (rest : List (List Subscription)) (subs : List Subscription)
    → i + length rest ≡ n
    → entries_from i (rest ++ (subs ∷ [])) ≡ entries_from i rest ++ tag n subs
entries_from-snoc i n [] subs e =
    let same : i ≡ n = omega arith in append-nil (tag i subs) ∙ ap (λ (k : ℕ). tag k subs) same
entries_from-snoc i n (first ∷ rest) subs e =
    ap (λ (es : List Entry). tag i first ++ es)
      (entries_from-snoc (suc i) n rest subs (omega arith))
    ∙ sym (append_assoc (tag i first) (entries_from (suc i) rest) (tag n subs))

module _ {G W : Type 0} where
  requests-snoc :
      (ws : List (PlacedWriter G W)) (w : PlacedWriter G W)
      → requests (ws ++ (w ∷ [])) ≡ requests ws ++ (w.subscriptions ∷ [])
  requests-snoc [] w = refl
  requests-snoc (v ∷ ws) w =
      ap (λ (rs : List (List Subscription)). v.subscriptions ∷ rs) (requests-snoc ws w)

  pub length-requests : (ws : List (PlacedWriter G W)) → length (requests ws) ≡ length ws
  length-requests [] = refl
  length-requests (w ∷ ws) = ap suc (length-requests ws)

  -- A write of a writer with the same subscriptions changes no request.
  pub requests-set :
      (ws : List (PlacedWriter G W)) (i : ℕ) (v w : PlacedWriter G W)
      → get_elem? ws i ≡ some v
      → w.subscriptions ≡ v.subscriptions
      → requests (set ws i w) ≡ requests ws
  requests-set [] i v w h e = refl
  requests-set (x ∷ ws) zero v w h e = ground arith
  requests-set (x ∷ ws) (suc i) v w h e =
      ap (λ (rs : List (List Subscription)). x.subscriptions ∷ rs) (requests-set ws i v w h e)

  pub add_placed_writer-IsInSync :
      (w : PlacedWriter G W) (f : InProgressFile G W)
      → IsInSync f
      → IsInSync (add_placed_writer w f)
  unfolding add_placed_writer
  add_placed_writer-IsInSync w f h =
      subscribe_each-eq (length f.writers) w.subscriptions f.router
      ∙ ap (subscribe_all (tag (length f.writers) w.subscriptions)) h
      ∙ sym (
          subscribe_all-append (entries_from 0 (requests f.writers))
            (tag (length f.writers) w.subscriptions) Router.default)
      ∙ ap (λ (es : List Entry). subscribe_all es Router.default)
          (sym (
            ap (entries_from 0) (requests-snoc f.writers w)
            ∙ entries_from-snoc 0 (length f.writers) (requests f.writers) w.subscriptions
                (omega (arith, length-requests f.writers))))
