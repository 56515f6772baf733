-- ===== src/Writer/Nxeventdata/Append.antt =====
-- writer_modules/nxevent_data.rs: what events add to the data sets.
use kafka_file_writer.Base.{
  ℕ, ◌+◌, ◌≤◌, ◌<◌, ◌^◌, String, ◌≡◌, ◌≢◌, sym, ap, subst, ◌∙◌, List, ◌++◌, map, length, take,
  arith,
}
use kafka_file_writer.Base.Int.{ℤ, add_usize}
use kafka_file_writer.Base.Exec.{ok, continue, continue-eq-ok, map_err_result-eq-ok}
use text.Mathlib.TextEquality.{eq_iff}
use kafka_file_writer.Error.{failed_file_write}
use kafka_file_writer.Hdf.{Hdf5}
use kafka_file_writer.Writer.Nxeventdata.{
  Floats, Element, u32, f32, Writes, append_events, grow_events, write_events, open_dataset, resize,
  write_slice,
}
use kafka_file_writer.Hdf.Context.{err_dataset, err_parent_dataset}
use kafka_file_writer.Hdf.Laws.{DatasetLaws}

-- Two data sets of one length that grow by as many elements each, in the order of the code.
module _ {Elem : Type 0} (hdf : Hdf5 Elem) (laws : DatasetLaws hdf) where
  open laws use {read, resize_grow, resize_other, write_ok, write_other}

  -- The four steps by which two data sets grow, in the order of the code.
  abbrev pub Grown :
      (d e : hdf.Dataset) (xs ys : List Elem) (n m m' : ℕ) (h h' : hdf.State) → Type 0
  Grown d e xs ys n m m' h h' =
      (h₁ : hdf.State) × (h₂ : hdf.State) × (h₃ : hdf.State) × (hdf.resize d m h ≡ (ok tt, h₁))
      × (hdf.resize e m' h₁ ≡ (ok tt, h₂))
      × (hdf.write_slice d xs n h₂ ≡ (ok tt, h₃))
      × (hdf.write_slice e ys n h₃ ≡ (ok tt, h'))

  -- A third data set keeps its elements.
  pub Grown-other :
      (c d e : hdf.Dataset) (xs ys : List Elem) (n m m' : ℕ) (h h' : hdf.State)
      → Grown d e xs ys n m m' h h'
      → c ≢ d
      → c ≢ e
      → read c h' ≡ read c h
  Grown-other c d e xs ys n m m' h h' (h₁, h₂, h₃, r₁, r₂, w₁, w₂) cd ce =
      write_other e c ys n h₃ h' w₂ ce
      ∙ write_other d c xs n h₂ h₃ w₁ cd
      ∙ resize_other e c m' h₁ h₂ r₂ ce
      ∙ resize_other d c m h h₁ r₁ cd

  pub grow_two :
      (d e : hdf.Dataset) (xs ys : List Elem) (n m : ℕ) (h₀ h₁ h₂ h₃ h₄ : hdf.State)
      → d ≢ e
      → length (read d h₀) ≡ n
      → length (read e h₀) ≡ n
      → n ≤ m
      → hdf.resize d m h₀ ≡ (ok tt, h₁)
      → hdf.resize e m h₁ ≡ (ok tt, h₂)
      → hdf.write_slice d xs n h₂ ≡ (ok tt, h₃)
      → hdf.write_slice e ys n h₃ ≡ (ok tt, h₄)
      → (read d h₄ ≡ read d h₀ ++ xs) × (read e h₄ ≡ read e h₀ ++ ys)
  grow_two d e xs ys n m h₀ h₁ h₂ h₃ h₄ ne ld le nm r₁ r₂ w₁ w₂ = (first, second)
    where
      ne' : e ≢ d
      ne' p = ne (sym p)

      kept_d : take n (read d h₂) ≡ read d h₀
      kept_d =
          ap (take n) (resize_other e d m h₁ h₂ r₂ ne)
          ∙ subst (λ (k : ℕ). take k (read d h₁) ≡ read d h₀) ld
              (resize_grow d m h₀ h₁ r₁ (omega arith))

      same_e : read e h₁ ≡ read e h₀
      same_e = resize_other d e m h₀ h₁ r₁ ne'

      le₁ : length (read e h₁) ≡ n
      le₁ = ap length same_e ∙ le

      kept_e : take n (read e h₂) ≡ read e h₀
      kept_e =
          subst (λ (k : ℕ). take k (read e h₂) ≡ read e h₁) le₁
            (resize_grow e m h₁ h₂ r₂ (omega (arith, le₁)))
          ∙ same_e

      first : read d h₄ ≡ read d h₀ ++ xs
      first =
          write_other e d ys n h₃ h₄ w₂ ne
          ∙ write_ok d xs n h₂ h₃ w₁
          ∙ ap (λ (zs : List Elem). zs ++ xs) kept_d

      second : read e h₄ ≡ read e h₀ ++ ys
      second =
          write_ok e ys n h₃ h₄ w₂
          ∙ ap (λ (zs : List Elem). take n zs ++ ys) (write_other d e xs n h₂ h₃ w₁ ne')
          ∙ ap (λ (zs : List Elem). zs ++ ys) kept_e

module _ (fl : Floats) (hdf : Hdf5 (Element fl.F64 fl.F32)) where
  pub open_dataset-ok :
      (g : hdf.Location) (n : String) (d : hdf.Dataset) (h h' : hdf.State)
      → open_dataset fl hdf g n h ≡ (ok d, h')
      → hdf.dataset g n h ≡ (ok d, h')
  unfolding open_dataset err_parent_dataset
  open_dataset-ok g n d h h' e =
      map_err_result-eq-ok _ (hdf.dataset g n h) d h'
        (map_err_result-eq-ok failed_file_write _ d h' e)

  pub resize-ok :
      (d : hdf.Dataset) (n : ℕ) (h h' : hdf.State)
      → resize fl hdf d n h ≡ (ok tt, h')
      → hdf.resize d n h ≡ (ok tt, h')
  unfolding resize err_dataset
  resize-ok d n h h' e =
      map_err_result-eq-ok _ (hdf.resize d n h) tt h'
        (map_err_result-eq-ok failed_file_write _ tt h' e)

  pub write_slice-ok :
      (d : hdf.Dataset) (xs : List (Element fl.F64 fl.F32)) (n : ℕ) (h h' : hdf.State)
      → write_slice fl hdf d xs n h ≡ (ok tt, h')
      → hdf.write_slice d xs n h ≡ (ok tt, h')
  unfolding write_slice err_dataset
  write_slice-ok d xs n h h' e =
      map_err_result-eq-ok _ (hdf.write_slice d xs n h) tt h'
        (map_err_result-eq-ok failed_file_write _ tt h' e)

  module _ (laws : DatasetLaws hdf) where
    open laws use {handle, read, handle_injective, dataset_ok, size_read}

    -- A success of `grow_events` was one of each of its four steps.
    grow_events-Grown :
        (d e : hdf.Dataset) (ids : List ℕ) (tofs : List ℤ) (h h' : hdf.State)
        → grow_events fl hdf ids tofs e d h ≡ (ok tt, h')
        → Grown hdf laws d e
            (map u32 ids)
            (map (λ t. f32 (fl.to_f32_div_1000 t)) tofs)
            (hdf.size e h)
            (add_usize (hdf.size e h) (length ids))
            (add_usize (hdf.size e h) (length tofs))
            h
            h'
    unfolding grow_events write_events
    grow_events-Grown d e ids tofs h h' run =
        let n : ℕ = hdf.size e h in
        let m : ℕ = add_usize n (length ids) in
        let m' : ℕ = add_usize n (length tofs) in
        let xs : List (Element fl.F64 fl.F32) = map u32 ids in
        let ys : List (Element fl.F64 fl.F32) = map (λ t. f32 (fl.to_f32_div_1000 t)) tofs in
        let rest₂ : Writes fl hdf = write_events fl hdf d e n ids tofs in
        let rest₁ : Writes fl hdf = λ s. continue (resize fl hdf e m' s) (λ _. rest₂) in
        let (u₁, h₁, e₁, k₁) = continue-eq-ok (resize fl hdf d m h) (λ _. rest₁) tt h' run in
        let (u₂, h₂, e₂, k₂) = continue-eq-ok (resize fl hdf e m' h₁) (λ _. rest₂) tt h' k₁ in
        let (u₃, h₃, e₃, k₃) =
          continue-eq-ok (write_slice fl hdf d xs n h₂) (λ _. write_slice fl hdf e ys n) tt h' k₂ in
        (
          h₁,
          h₂,
          h₃,
          resize-ok d m h h₁ e₁,
          resize-ok e m' h₁ h₂ e₂,
          write_slice-ok d xs n h₂ h₃ e₃,
          write_slice-ok e ys n h₃ h' k₃,
        )

    grow_events-appends :
        (d e : hdf.Dataset) (ids : List ℕ) (tofs : List ℤ) (h h' : hdf.State)
        → grow_events fl hdf ids tofs e d h ≡ (ok tt, h')
        → d ≢ e
        → length (read d h) ≡ length (read e h)
        → length ids ≡ length tofs
        → length (read d h) + length ids < 2 ^ 64
        → (read d h' ≡ read d h ++ map u32 ids)
          × (read e h' ≡ read e h ++ map (λ t. f32 (fl.to_f32_div_1000 t)) tofs)
    grow_events-appends d e ids tofs h h' run ne same_before same_count small =
        let n : ℕ = hdf.size e h in
        let (h₁, h₂, h₃, r₁, r₂, w₁, w₂) = grow_events-Grown d e ids tofs h h' run in
        let count : add_usize n (length tofs) ≡ add_usize n (length ids) =
          ap (add_usize n) (sym same_count) in
        grow_two hdf laws d e _ _ n (add_usize n (length ids)) h h₁ h₂ h₃ h' ne
          (same_before ∙ sym (size_read e h)) (sym (size_read e h)) (omega (arith, size_read e h))
          r₁ (subst (λ (k : ℕ). hdf.resize e k h₁ ≡ (ok tt, h₂)) count r₂) w₁ w₂

    ids_ne_offsets : (g : hdf.Location) → handle g "event_id" ≢ handle g "event_time_offset"
    ids_ne_offsets g e =
        let same = handle_injective g "event_id" "event_time_offset" e in
        absurd (ground (arith, eq_iff "event_id" "event_time_offset"))

    -- A success of `append_events` opened the two data sets of its group and made them grow.
    append_events-eq-ok :
        (g : hdf.Location) (ids : List ℕ) (tofs : List ℤ) (h h' : hdf.State)
        → append_events fl hdf g ids tofs h ≡ (ok tt, h')
        → grow_events fl hdf ids tofs (handle g "event_time_offset") (handle g "event_id") h
          ≡ (ok tt, h')
    unfolding append_events
    append_events-eq-ok g ids tofs h h' run =
        let rest = λ (t i : hdf.Dataset). grow_events fl hdf ids tofs t i in
        let (t, h₁, e₁, k₁) =
          continue-eq-ok (open_dataset fl hdf g "event_time_offset" h)
            (λ t s. continue (open_dataset fl hdf g "event_id" s) (rest t)) tt h' run in
        let (i, h₂, e₂, k₂) =
          continue-eq-ok (open_dataset fl hdf g "event_id" h₁) (rest t) tt h' k₁ in
        let (t_is, h₁_is) = dataset_ok g _ h h₁ t (open_dataset-ok g _ t h h₁ e₁) in
        let (i_is, h₂_is) = dataset_ok g _ h₁ h₂ i (open_dataset-ok g _ i h₁ h₂ e₂) in
        let h_is : h₂ ≡ h = h₂_is ∙ h₁_is in cc

    -- What `append_events` leaves in the two data sets of its group.
    pub append_events-appends :
        (g : hdf.Location) (ids : List ℕ) (tofs : List ℤ) (h h' : hdf.State)
        → append_events fl hdf g ids tofs h ≡ (ok tt, h')
        → length (read (handle g "event_id") h) ≡ length (read (handle g "event_time_offset") h)
        → length ids ≡ length tofs
        → length (read (handle g "event_id") h) + length ids < 2 ^ 64
        → (read (handle g "event_id") h' ≡ read (handle g "event_id") h ++ map u32 ids)
          × (read (handle g "event_time_offset") h'
              ≡ read (handle g "event_time_offset") h ++ map (λ t. f32 (fl.to_f32_div_1000 t)) tofs)
    append_events-appends g ids tofs h h' run =
        grow_events-appends (handle g "event_id") (handle g "event_time_offset") ids tofs h h'
          (append_events-eq-ok g ids tofs h h' run) (ids_ne_offsets g)

    -- And in any other data set.
    pub append_events-other :
        (g : hdf.Location) (ids : List ℕ) (tofs : List ℤ) (h h' : hdf.State) (c : hdf.Dataset)
        → append_events fl hdf g ids tofs h ≡ (ok tt, h')
        → c ≢ handle g "event_id"
        → c ≢ handle g "event_time_offset"
        → read c h' ≡ read c h
    append_events-other g ids tofs h h' c run =
        Grown-other hdf laws c (handle g "event_id") (handle g "event_time_offset") _ _ _ _ _ h h' (
          grow_events-Grown (handle g "event_id") (handle g "event_time_offset") ids tofs h h'
            (append_events-eq-ok g ids tofs h h' run))
