-- ===== src/Mitm/Probe.antt =====
-- The probe window of a name: what a lookup passes over, and where an insertion goes.
use proxiflare.Prelude.{
  ℕ, zero, suc, ◌+◌, ◌≤◌, ◌<◌, ◌≡◌, ◌≢◌, ◌⊎◌, inl, inr, refl, sym, ap, ◌∙◌, Bool, true, false,
  Option, none, some, List, Bytes, length, get_or, set, bytes_eq, bytes_eq_iff, get_or-set_self,
  get_or-set_ne, Bool-cases, Option-cases, ltb, arith,
}
use proxiflare.Mitm.{CertEntry, cert_cache_size, slot_at, entry_at, lookup_loop, insert_loop}

module _ {C : Type 0} (base : ℕ) (name : Bytes) where
  -- From `step` on, the next `m` slots hold entries of other names.
  abbrev pub Skips : List (Option (CertEntry C)) → ℕ → ℕ → Type 0
  Skips slots step zero = Unit
  Skips slots step (suc m) =
      ((e : CertEntry C) × (entry_at slots base step ≡ some e) × (bytes_eq e.domain name ≡ false))
      × Skips slots (step + 1) m

  entry_move :
      (slots : List (Option (CertEntry C))) (i j : ℕ)
      → i ≡ j
      → entry_at slots base i ≡ entry_at slots base j
  entry_move slots i j e = ap (λ k. entry_at slots base k) e

  -- A failed lookup: the window is passed over to its end, or to a free slot.
  pub lookup-none :
      (n step : ℕ) (slots : List (Option (CertEntry C)))
      → lookup_loop n step base name slots ≡ none
      → (m : ℕ) × (m ≤ n) × Skips slots step m × ((m ≡ n) ⊎ (entry_at slots base (step + m) ≡ none))
  unfolding lookup_loop
  lookup-none zero step slots h = (0, omega arith, tt, inl refl)
  lookup-none (suc n) step slots h = elim (Option-cases (entry_at slots base step)) [
    | inl z ↦ (0, omega arith, tt, inr (entry_move slots (step + 0) step (omega arith) ∙ z))
    | inr (e, z) ↦ elim (Bool-cases (bytes_eq e.domain name)) [
      | inl t ↦ let w : some (slot_at base step, e) ≡ none = (rw (lookup_loop, z, t) at h) in cc
      | inr f ↦
          let (m, le, sk, end) = lookup-none n (step + 1) slots (rw (lookup_loop, z, f) at h) in
          (suc m, omega arith, ((e, z, f), sk), after m end)
    ]
  ]
    where
      after :
          (m : ℕ)
          → (m ≡ n) ⊎ (entry_at slots base (step + 1 + m) ≡ none)
          → (suc m ≡ suc n) ⊎ (entry_at slots base (step + suc m) ≡ none)
      after m (inl e) = inl (ap suc e)
      after m (inr e) = inr (entry_move slots (step + suc m) (step + 1 + m) (omega arith) ∙ e)

  pub lookup-some :
      (n step : ℕ) (slots : List (Option (CertEntry C))) (idx : ℕ) (e : CertEntry C)
      → lookup_loop n step base name slots ≡ some (idx, e)
      → (i : ℕ) × (i < n) × Skips slots step i × (idx ≡ slot_at base (step + i)) × (e.domain ≡ name)
  unfolding lookup_loop
  lookup-some zero step slots idx e h = cc
  lookup-some (suc n) step slots idx e h = elim (Option-cases (entry_at slots base step)) [
    | inl z ↦ let w : none ≡ some (idx, e) = (rw (lookup_loop, z) at h) in cc
    | inr (d, z) ↦ elim (Bool-cases (bytes_eq d.domain name)) [
      | inl t ↦
          let w : some (slot_at base step, d) ≡ some (idx, e) = (rw (lookup_loop, z, t) at h) in
          let p : (slot_at base step, d) ≡ (idx, e) = cc in
          let at : slot_at base step ≡ idx = ap (λ (q : ℕ × CertEntry C). q.0) p in
          let same : d ≡ e = ap (λ (q : ℕ × CertEntry C). q.1) p in
          (
            0,
            omega arith,
            tt,
            sym at ∙ ap (slot_at base) (omega arith),
            ap (λ x. x.domain) (sym same) ∙ (bytes_eq_iff d.domain name).0 t,
          )
      | inr f ↦
          let (i, lt, sk, at, dom) =
            lookup-some n (step + 1) slots idx e (rw (lookup_loop, z, f) at h) in
          (suc i, omega arith, ((d, z, f), sk), at ∙ ap (slot_at base) (omega arith), dom)
    ]
  ]

  -- An insertion goes to the free slot behind the entries passed over, or to one of these.
  pub insert-some :
      (n m step : ℕ) (slots : List (Option (CertEntry C))) (lru : Option ℕ) (lru_tick : ℕ) (idx : ℕ)
      (evicted : Bool)
      → m ≤ n
      → Skips slots step m
      → (m ≡ n) ⊎ (entry_at slots base (step + m) ≡ none)
      → insert_loop n step base slots lru lru_tick ≡ some (idx, evicted)
      → (lru ≡ some idx) ⊎ ((i : ℕ) × (i ≤ m) × (i < n) × (idx ≡ slot_at base (step + i)))
  unfolding insert_loop
  insert-some zero m step slots none lru_tick idx evicted le sk end h = cc
  insert-some zero m step slots (some i) lru_tick idx evicted le sk end h =
      let p : (i, true) ≡ (idx, evicted) = cc in inl (ap (λ (q : ℕ × Bool). some q.0) p)
  insert-some (suc n) zero step slots lru lru_tick idx evicted le sk (inl e) h =
      absurd (omega arith)
  insert-some (suc n) zero step slots lru lru_tick idx evicted le sk (inr e) h =
      let z : entry_at slots base step ≡ none =
        entry_move slots step (step + 0) (omega arith) ∙ e in
      let w : some (slot_at base step, false) ≡ some (idx, evicted) = (rw (insert_loop, z) at h) in
      let p : (slot_at base step, false) ≡ (idx, evicted) = cc in
      let at : slot_at base step ≡ idx = ap (λ (q : ℕ × Bool). q.0) p in
      inr (0, omega arith, omega arith, sym at ∙ ap (slot_at base) (omega arith))
  insert-some (suc n) (suc m) step slots lru lru_tick idx evicted le ((e, z, f), sk) end h =
      elim (Bool-cases (ltb e.last_used lru_tick)) [
        | inl t ↦
            let r =
              insert-some n m (step + 1) slots (some (slot_at base step)) e.last_used idx evicted
                (omega arith) sk (sooner end) (rw (insert_loop, z, t) at h) in
            elim r [
              | inl s ↦
                  let at : slot_at base step ≡ idx = cc in
                  inr (0, omega arith, omega arith, sym at ∙ ap (slot_at base) (omega arith))
              | inr (i, a, b, at) ↦
                  inr (suc i, omega arith, omega arith, at ∙ ap (slot_at base) (omega arith))
            ]
        | inr t ↦
            let r =
              insert-some n m (step + 1) slots lru lru_tick idx evicted (omega arith) sk
                (sooner end) (rw (insert_loop, z, t) at h) in
            elim r [
              | inl s ↦ inl s
              | inr (i, a, b, at) ↦
                  inr (suc i, omega arith, omega arith, at ∙ ap (slot_at base) (omega arith))
            ]
      ]
    where
      sooner :
          (suc m ≡ suc n) ⊎ (entry_at slots base (step + suc m) ≡ none)
          → (m ≡ n) ⊎ (entry_at slots base (step + 1 + m) ≡ none)
      sooner (inl s) = inl (omega arith)
      sooner (inr s) = inr (entry_move slots (step + 1 + m) (step + suc m) (omega arith) ∙ s)

  pub Skips-less :
      (i m step : ℕ) (slots : List (Option (CertEntry C)))
      → i ≤ m
      → Skips slots step m
      → Skips slots step i
  Skips-less zero m step slots le sk = tt
  Skips-less (suc i) zero step slots le sk = absurd (omega arith)
  Skips-less (suc i) (suc m) step slots le (h, sk) =
      (h, Skips-less i m (step + 1) slots (omega arith) sk)

  -- An entry of the name behind slots that are passed over is found.
  pub lookup-set :
      (n i step : ℕ) (slots : List (Option (CertEntry C))) (idx : ℕ) (e : CertEntry C)
      → length slots ≡ cert_cache_size
      → i < n
      → i < cert_cache_size
      → idx ≡ slot_at base (step + i)
      → Skips slots step i
      → e.domain ≡ name
      → lookup_loop n step base name (set slots idx (some e)) ≡ some (idx, e)
  unfolding lookup_loop
  lookup-set zero i step slots idx e size lt fit at sk dom = absurd (omega arith)
  lookup-set (suc n) zero step slots idx e size lt fit at sk dom =
      let here : slot_at base step ≡ idx = ap (slot_at base) (omega arith) ∙ sym at in
      let new : entry_at (set slots idx (some e)) base step ≡ some e =
        ap (λ k. get_or (set slots idx (some e)) k none) here
        ∙ get_or-set_self slots idx (some e) none (omega arith) in
      let eq : bytes_eq e.domain name ≡ true = (bytes_eq_iff e.domain name).1 dom in
      rw (lookup_loop, new, eq) (ap (λ k. some (k, e)) here)
  lookup-set (suc n) (suc i) step slots idx e size lt fit at ((d, z, f), sk) dom =
      let apart : idx ≢ slot_at base step = omega arith in
      let old : entry_at (set slots idx (some e)) base step ≡ some d =
        get_or-set_ne slots idx (slot_at base step) (some e) none apart ∙ z in
      rw (lookup_loop, old, f)
        (lookup-set n i (step + 1) slots idx e size (omega arith) (omega arith)
          (at ∙ ap (slot_at base) (omega arith)) sk dom)
