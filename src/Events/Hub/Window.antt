-- ===== src/Events/Hub/Window.antt =====
-- The window of retained records: within both limits, without a hole, and ending at the hub's
-- cursor.
use mohuddle.Base.{
  ℕ, ◌+◌, ◌-◌, ◌≤◌, ◌<◌, ◌≡◌, refl, sym, subst, ◌⊎◌, inl, inr, Bool, String, List, [], ◌∷◌, ◌++◌,
  arith, length, total, total-append, All, All-append, u64_mod,
}
use Prim.Native.String.{len}
use mohuddle.Events.Cursor.{Record, Bytes, Wire}
use mohuddle.Events.Subscriber.{Subscriber}
use mohuddle.Events.Hub.{RetainedRecord, Hub, trim, retain}

module _ {E : Type 0} where
  -- The records carry the places `lo + 1, …, hi` of one boot.
  abbrev pub Contiguous : String → ℕ → List (RetainedRecord E) → ℕ → Type 0
  Contiguous boot lo [] hi = lo ≡ hi
  Contiguous boot lo (r ∷ rs) hi =
      (r.kept.cursor.boot_id ≡ boot)
      × (r.kept.cursor.event_sequence ≡ lo + 1)
      × Contiguous boot (lo + 1) rs hi

  pub Contiguous-length :
      (boot : String) (lo hi : ℕ) (rs : List (RetainedRecord E))
      → Contiguous boot lo rs hi
      → lo + length rs ≡ hi
  Contiguous-length boot lo hi [] c = omega arith
  Contiguous-length boot lo hi (r ∷ rs) c = omega (arith, Contiguous-length boot (lo + 1) hi rs c.2)

  abbrev pub size : List (RetainedRecord E) → ℕ
  size = total λ r. r.bytes

  abbrev pub Decodes : Wire E → RetainedRecord E → Type 0
  Decodes w r = w.unmarshal_record r.encoded ≡ r.kept

  -- The bytes that are counted are those of the encoding.
  abbrev pub IsMeasured : RetainedRecord E → Type 0
  IsMeasured r = r.bytes ≡ len r.encoded

  abbrev pub encoded_size : List (RetainedRecord E) → ℕ
  encoded_size = total λ r. len r.encoded

  pub size-IsMeasured :
      (rs : List (RetainedRecord E)) → All IsMeasured rs → size rs ≡ encoded_size rs
  size-IsMeasured [] h = refl
  size-IsMeasured (r ∷ rs) (h, hs) = omega (arith, h, size-IsMeasured rs hs)

  pub record IsWindow (w : Wire E) (h : Hub E) : Type 0 where
    pub no_hole : (lo : ℕ) × Contiguous h.boot_id lo h.records h.event_sequence
    pub counted : h.record_bytes ≡ size h.records
    pub few : length h.records ≤ h.max_records
    pub small : h.record_bytes ≤ h.max_bytes
    pub faithful : All (Decodes w) h.records
    pub measured : All IsMeasured h.records
    pub in_word : h.event_sequence < u64_mod

  -- The window says nothing of the subscribers.
  pub window_of :
      {w : Wire E} (h : Hub E) (message next : ℕ) (subscribers : List (ℕ × Subscriber E))
      (closed : Bool)
      → IsWindow w h
      → IsWindow w (record h {
        message_sequence = message;
        next_subscriber = next;
        subscribers = subscribers;
        closed = closed;
      })
  window_of h message next subscribers closed v = record {
    no_hole = v.no_hole;
    counted = v.counted;
    few = v.few;
    small = v.small;
    faithful = v.faithful;
    measured = v.measured;
    in_word = v.in_word;
  }

  module _ (max_records max_bytes : ℕ) where
    abbrev trimmed : List (RetainedRecord E) → ℕ → List (RetainedRecord E)
    trimmed rs bytes = (trim max_records max_bytes rs bytes).0

    -- A round of the loop drops the oldest record, or leaves all.
    trim_round :
        (r : RetainedRecord E) (rs : List (RetainedRecord E)) (bytes : ℕ)
        → (trimmed (r ∷ rs) bytes ≡ trimmed rs (bytes - r.bytes))
          ⊎ (trimmed (r ∷ rs) bytes ≡ r ∷ rs)
    unfolding trim
    trim_round r rs bytes = ground arith

    trim-counted :
        (rs : List (RetainedRecord E)) (bytes : ℕ)
        → bytes ≡ size rs
        → (trim max_records max_bytes rs bytes).1 ≡ size (trimmed rs bytes)
    unfolding trim
    trim-counted [] bytes h = omega arith
    trim-counted (r ∷ rs) bytes h = ground (arith, trim-counted rs (bytes - r.bytes))

    trim_few : (rs : List (RetainedRecord E)) (bytes : ℕ) → length (trimmed rs bytes) ≤ max_records
    unfolding trim
    trim_few [] bytes = omega arith
    trim_few (r ∷ rs) bytes = ground (arith, trim_few rs (bytes - r.bytes))

    trim_small :
        (rs : List (RetainedRecord E)) (bytes : ℕ)
        → bytes ≡ size rs
        → (trim max_records max_bytes rs bytes).1 ≤ max_bytes
    unfolding trim
    trim_small [] bytes h = omega arith
    trim_small (r ∷ rs) bytes h = ground (arith, trim_small rs (bytes - r.bytes))

    trim-Contiguous :
        (boot : String) (lo hi : ℕ) (rs : List (RetainedRecord E)) (bytes : ℕ)
        → Contiguous boot lo rs hi
        → (lo' : ℕ) × Contiguous boot lo' (trimmed rs bytes) hi
    unfolding trim
    trim-Contiguous boot lo hi [] bytes h = (lo, h)
    trim-Contiguous boot lo hi (r ∷ rs) bytes h = elim (trim_round r rs bytes) [
      | inl over ↦
          subst (λ l. (x : ℕ) × Contiguous boot x l hi) (sym over)
            (trim-Contiguous boot (lo + 1) hi rs (bytes - r.bytes) h.2)
      | inr fits ↦ subst (λ l. (x : ℕ) × Contiguous boot x l hi) (sym fits) (lo, h)
    ]

    trim-All :
        (P : RetainedRecord E → Type 0) (rs : List (RetainedRecord E)) (bytes : ℕ)
        → All P rs
        → All P (trimmed rs bytes)
    unfolding trim
    trim-All P [] bytes h = tt
    trim-All P (r ∷ rs) bytes h = elim (trim_round r rs bytes) [
      | inl over ↦ subst (All P) (sym over) (trim-All P rs (bytes - r.bytes) h.1)
      | inr fits ↦ subst (All P) (sym fits) h
    ]

  Contiguous-snoc :
      (boot : String) (lo hi : ℕ) (rs : List (RetainedRecord E)) (r : RetainedRecord E)
      → r.kept.cursor.boot_id ≡ boot
      → r.kept.cursor.event_sequence ≡ hi + 1
      → Contiguous boot lo rs hi
      → Contiguous boot lo (rs ++ r ∷ []) (hi + 1)
  Contiguous-snoc boot lo hi [] r b s h = ground arith
  Contiguous-snoc boot lo hi (q ∷ rs) r b s h =
      (h.0, h.1, Contiguous-snoc boot (lo + 1) hi rs r b s h.2)

  -- Retaining the next record keeps the window.
  pub retain-IsWindow :
      (w : Wire E) (h : Hub E) (r : Record E) (d : Bytes) (before : ℕ)
      → IsWindow w (record h { event_sequence = before })
      → r.cursor.boot_id ≡ h.boot_id
      → r.cursor.event_sequence ≡ before + 1
      → h.event_sequence ≡ before + 1
      → h.event_sequence < u64_mod
      → w.unmarshal_record d ≡ r
      → IsWindow w (retain r d h)
  unfolding retain
  retain-IsWindow w h r d before v b s n word e = record {
    no_hole =
        trim-Contiguous h.max_records h.max_bytes h.boot_id v.no_hole.0 h.event_sequence all bytes
          (rw n (Contiguous-snoc h.boot_id v.no_hole.0 before h.records new b s v.no_hole.1));
    counted = trim-counted h.max_records h.max_bytes all bytes total_all;
    few = trim_few h.max_records h.max_bytes all bytes;
    small = trim_small h.max_records h.max_bytes all bytes total_all;
    faithful =
        trim-All h.max_records h.max_bytes (Decodes w) all bytes
          (All-append (Decodes w) h.records (new ∷ []) v.faithful (e, tt));
    measured =
        trim-All h.max_records h.max_bytes IsMeasured all bytes
          (All-append IsMeasured h.records (new ∷ []) v.measured (refl, tt));
    in_word = word;
  }
    where
      new : RetainedRecord E
      new = record { kept = r; encoded = d; bytes = len d }

      all : List (RetainedRecord E)
      all = h.records ++ new ∷ []

      bytes : ℕ
      bytes = h.record_bytes + len d

      total_all : bytes ≡ size all
      total_all = omega (
        arith,
        v.counted,
        total-append {0} (λ (q : RetainedRecord E). q.bytes) h.records (new ∷ []),
      )
