-- ===== src/Stats/Counts.antt =====
-- The table of stats.c as a function from proxies to counters.
use proxiflare.Prelude.{
  ℕ, zero, suc, ◌+◌, ◌%◌, ◌^◌, ◌≤◌, ◌<◌, ◌≡◌, ◌⊎◌, inl, inr, refl, sym, ap, ◌∙◌, true, false, none,
  some, List, [], ◌∷◌, ◌++◌, leb, ltb, if◌then◌else◌, length, arith, Bool-cases, Option-cases,
  length-append,
}
use mathlib.Core.List.{append-nil}
use proxiflare.Prelude.Int.{ℤ, pos, negsuc, eqb_ℤ}
use proxiflare.Stats.{Entry, Focus, zeroed, max_proxies, find, find_or_create, bump, update, reset}

-- What is counted for a proxy: nothing, if it has no entry.
abbrev pub counted : List Entry → ℤ → Entry
counted [] id = zeroed id
counted (e ∷ es) id =
    let rest = counted es id in if eqb_ℤ e.proxy_id id then record e { proxy_id = id } else rest

abbrev pub Tracked : List Entry → ℤ → Type 0
Tracked es id = (f : Focus) × (find es id ≡ some f)

eqb_refl : (a : ℤ) → eqb_ℤ a a ≡ true
eqb_refl a = ground arith

eqb_other : (a b c : ℤ) → eqb_ℤ a b ≡ true → eqb_ℤ b c ≡ false → eqb_ℤ a c ≡ false
eqb_other a b c e n = ground arith

-- What a search that succeeds says: no entry before the one that is found is the proxy's.
record Found (es : List Entry) (id : ℤ) (f : Focus) : Type 0 where
  split : es ≡ f.before ++ f.entry ∷ f.after
  same : eqb_ℤ f.entry.proxy_id id ≡ true
  skip : (xs : List Entry) → counted (f.before ++ xs) id ≡ counted xs id

some-inj : {a b : Focus} → some a ≡ some b → a ≡ b
some-inj e = cc

find-Found : (es : List Entry) (id : ℤ) (f : Focus) → find es id ≡ some f → Found es id f
unfolding find
find-Found [] id f h = cc
find-Found (e ∷ es) id f h = elim (Bool-cases (eqb_ℤ e.proxy_id id)) [
  | inl y ↦
      let k : record { before = []; entry = e; after = es } ≡ f = some-inj (rw y at h) in
      rw (← k) (record { split = refl; same = y; skip = λ xs. refl })
  | inr n ↦ elim (Option-cases (find es id)) [
    | inl miss ↦ let k : none ≡ some f = rw (n, miss) at h in cc
    | inr (g, found) ↦
        let k : record g { before = e ∷ g.before } ≡ f = some-inj (rw (n, found) at h) in
        let w = find-Found es id g found in
        rw (← k)
          (record { split = ap (◌∷◌ e) w.split; same = w.same; skip = λ xs. rw n (w.skip xs) })
  ]
]

find-none :
    (es : List Entry) (id : ℤ) (xs : List Entry)
    → find es id ≡ none
    → counted (es ++ xs) id ≡ counted xs id
unfolding find
find-none [] id xs h = refl
find-none (e ∷ es) id xs h = elim (Bool-cases (eqb_ℤ e.proxy_id id)) [
  | inl y ↦ let k : some (record { before = []; entry = e; after = es }) ≡ none = rw y at h in cc
  | inr n ↦ elim (Option-cases (find es id)) [
    | inl miss ↦ rw n (find-none es id xs miss)
    | inr (g, found) ↦
        let k : some (record g { before = e ∷ g.before }) ≡ none = rw (n, found) at h in cc
  ]
]

-- An entry of another proxy does not matter.
counted-other :
    (before after : List Entry) (e : Entry) (id : ℤ)
    → eqb_ℤ e.proxy_id id ≡ false
    → counted (before ++ e ∷ after) id ≡ counted (before ++ after) id
counted-other [] after e id n = rw n
counted-other (x ∷ before) after e id n = elim (Bool-cases (eqb_ℤ x.proxy_id id)) [
  | inl y ↦ rw y
  | inr m ↦ rw m (counted-other before after e id n)
]

-- There is an entry for the proxy, or room for one.
abbrev pub HasRoom : List Entry → ℤ → Type 0
HasRoom es id = ((f : Focus) × (find es id ≡ some f)) ⊎ (length es < max_proxies)

-- The slot that is updated, found or new: the table counts as if the slot had been there.
record Slot (es : List Entry) (id : ℤ) (f : Focus) : Type 0 where
  same : eqb_ℤ f.entry.proxy_id id ≡ true
  skip : (xs : List Entry) → counted (f.before ++ xs) id ≡ counted xs id
  was : counted es id ≡ record f.entry { proxy_id = id }
  others : (id' : ℤ) → eqb_ℤ id id' ≡ false → counted es id' ≡ counted (f.before ++ f.after) id'

found-Slot : (es : List Entry) (id : ℤ) (f : Focus) → find es id ≡ some f → Slot es id f
found-Slot es id f h =
    let w = find-Found es id f h in
    record {
      same = w.same;
      skip = w.skip;
      was = rw w.split (w.skip (f.entry ∷ f.after) ∙ rw w.same refl);
      others = λ id' n.
          rw w.split (
            counted-other f.before f.after f.entry id'
              (eqb_other f.entry.proxy_id id id' w.same n));
    }

new-Slot :
    (es : List Entry) (id : ℤ)
    → find es id ≡ none
    → Slot es id (record { before = es; entry = zeroed id; after = [] })
new-Slot es id h = record {
  same = eqb_refl id;
  skip = λ xs. find-none es id xs h;
  was = ap (λ l. counted l id) (sym (append-nil es)) ∙ find-none es id [] h;
  others = λ id' n. ap (λ l. counted l id') (sym (append-nil es));
}

focus-found :
    (es : List Entry) (id : ℤ) (f : Focus) → find es id ≡ some f → find_or_create es id ≡ some f
unfolding find_or_create
focus-found es id f h = rw (h, find_or_create) refl

focus-new :
    (es : List Entry) (id : ℤ)
    → find es id ≡ none
    → leb max_proxies (length es) ≡ false
    → find_or_create es id ≡ some (record { before = es; entry = zeroed id; after = [] })
unfolding find_or_create
focus-new es id h place = rw (h, find_or_create) (rw place refl)

focus-full :
    (es : List Entry) (id : ℤ)
    → find es id ≡ none
    → leb max_proxies (length es) ≡ true
    → find_or_create es id ≡ none
unfolding find_or_create
focus-full es id h full = rw (h, find_or_create) (rw full refl)

module _ (es : List Entry) (id : ℤ) (tx rx : ℕ) (latency : ℤ) where
  update-some :
      (f : Focus)
      → find_or_create es id ≡ some f
      → update es id tx rx latency ≡ f.before ++ bump f.entry tx rx latency ∷ f.after
  unfolding update
  update-some f h = rw (h, update) refl

  update-none : find_or_create es id ≡ none → update es id tx rx latency ≡ es
  unfolding update
  update-none h = rw (h, update) refl

find_or_create-Slot :
    (es : List Entry) (id : ℤ)
    → HasRoom es id
    → (f : Focus) × (find_or_create es id ≡ some f) × Slot es id f
find_or_create-Slot es id room = elim (Option-cases (find es id)) [
  | inr (f, found) ↦ (f, focus-found es id f found, found-Slot es id f found)
  | inl miss ↦ (
    record { before = es; entry = zeroed id; after = [] },
    focus-new es id miss (has_place es id miss room),
    new-Slot es id miss,
  )
]
  where
    has_place :
        (es : List Entry) (id : ℤ)
        → find es id ≡ none
        → HasRoom es id
        → leb max_proxies (length es) ≡ false
    has_place es id miss (inl (f, found)) = cc
    has_place es id miss (inr lt) = ground arith

-- A latency as a sample: what it adds to the sum, and whether it is counted. Only a positive one is.
abbrev pub sample : ℤ → ℕ × ℕ
sample (pos zero) = (0, 0)
sample (pos (suc n)) = (suc n, 1)
sample (negsuc n) = (0, 0)

bump-sample :
    (e : Entry) (tx rx : ℕ) (latency : ℤ)
    → bump e tx rx latency ≡ record {
      proxy_id = e.proxy_id;
      bytes_tx = (e.bytes_tx + tx) % 2 ^ 64;
      bytes_rx = (e.bytes_rx + rx) % 2 ^ 64;
      connections = e.connections + 1;
      total_latency_ms = e.total_latency_ms + (sample latency).0;
      latency_count = e.latency_count + (sample latency).1;
    }
unfolding bump
bump-sample e tx rx (pos zero) =
    ap
      (λ (n : ℕ). record {
        proxy_id = e.proxy_id;
        bytes_tx = (e.bytes_tx + tx) % 2 ^ 64;
        bytes_rx = (e.bytes_rx + rx) % 2 ^ 64;
        connections = e.connections + 1;
        total_latency_ms = e.total_latency_ms + 0;
        latency_count = n;
      })
      (omega arith)
bump-sample e tx rx (pos (suc n)) =
    let positive : ltb 0 (suc n) ≡ true = ground arith in rw positive refl
bump-sample e tx rx (negsuc m) =
    ap
      (λ (n : ℕ). record {
        proxy_id = e.proxy_id;
        bytes_tx = (e.bytes_tx + tx) % 2 ^ 64;
        bytes_rx = (e.bytes_rx + rx) % 2 ^ 64;
        connections = e.connections + 1;
        total_latency_ms = e.total_latency_ms + 0;
        latency_count = n;
      })
      (omega arith)

update-bumped :
    (es : List Entry) (id : ℤ) (tx rx : ℕ) (latency : ℤ)
    → HasRoom es id
    → counted (update es id tx rx latency) id ≡ bump (counted es id) tx rx latency
unfolding bump
update-bumped es id tx rx latency room =
    let (f, e, s) = find_or_create-Slot es id room in
    rw (update-some es id tx rx latency f e, s.was)
      (s.skip (bump f.entry tx rx latency ∷ f.after) ∙ rw s.same refl)

-- As long as the proxy has an entry or the table has room, an update adds exactly the bytes, modulo
-- 2^64, one connection, and a latency that is positive as one more sample to what is counted for it.
pub update-counted :
    (es : List Entry) (id : ℤ) (tx rx : ℕ) (latency : ℤ)
    → HasRoom es id
    → let was = counted es id in
      counted (update es id tx rx latency) id ≡ record {
        proxy_id = id;
        bytes_tx = (was.bytes_tx + tx) % 2 ^ 64;
        bytes_rx = (was.bytes_rx + rx) % 2 ^ 64;
        connections = was.connections + 1;
        total_latency_ms = was.total_latency_ms + (sample latency).0;
        latency_count = was.latency_count + (sample latency).1;
      }
update-counted es id tx rx latency room =
    let (f, e, s) = find_or_create-Slot es id room in
    let was = counted es id in
    update-bumped es id tx rx latency room
    ∙ bump-sample was tx rx latency
    ∙ ap
        (λ i. record {
          proxy_id = i;
          bytes_tx = (was.bytes_tx + tx) % 2 ^ 64;
          bytes_rx = (was.bytes_rx + rx) % 2 ^ 64;
          connections = was.connections + 1;
          total_latency_ms = was.total_latency_ms + (sample latency).0;
          latency_count = was.latency_count + (sample latency).1;
        })
        (ap (λ x. x.proxy_id) s.was)

-- An update does not change what is counted for any other proxy, whether the table is full or not.
pub update-others :
    (es : List Entry) (id other : ℤ) (tx rx : ℕ) (latency : ℤ)
    → eqb_ℤ id other ≡ false
    → counted (update es id tx rx latency) other ≡ counted es other
unfolding bump
update-others es id other tx rx latency n = elim (Option-cases (find es id)) [
  | inr (f, found) ↦
      let s = found-Slot es id f found in
      rw (update-some es id tx rx latency f (focus-found es id f found)) (
        counted-other f.before f.after (bump f.entry tx rx latency) other
          (eqb_other f.entry.proxy_id id other s.same n)
        ∙ sym (s.others other n))
  | inl miss ↦ elim (Bool-cases (leb max_proxies (length es))) [
    | inl full ↦ rw (update-none es id tx rx latency (focus-full es id miss full)) refl
    | inr place ↦ rw (update-some es id tx rx latency _ (focus-new es id miss place)) (
        counted-other es [] (bump (zeroed id) tx rx latency) other n
        ∙ sym ((new-Slot es id miss).others other n))
  ]
]

-- The table never holds more than PF_MAX_PROXIES entries.
pub length-update :
    (es : List Entry) (id : ℤ) (tx rx : ℕ) (latency : ℤ)
    → length es ≤ max_proxies
    → length (update es id tx rx latency) ≤ max_proxies
length-update es id tx rx latency le = elim (Option-cases (find es id)) [
  | inr (f, found) ↦
      let split = (find-Found es id f found).split in
      let old = ap length split in
      rw (update-some es id tx rx latency f (focus-found es id f found)) (
        omega (
          arith,
          old,
          length-append f.before (f.entry ∷ f.after),
          length-append f.before (bump f.entry tx rx latency ∷ f.after),
        ))
  | inl miss ↦ elim (Bool-cases (leb max_proxies (length es))) [
    | inl full ↦ rw (update-none es id tx rx latency (focus-full es id miss full)) le
    | inr place ↦ rw (update-some es id tx rx latency _ (focus-new es id miss place)) (room place)
  ]
]
  where
    room :
        leb max_proxies (length es) ≡ false
        → length (es ++ bump (zeroed id) tx rx latency ∷ []) ≤ max_proxies
    room place = let l = length-append es (bump (zeroed id) tx rx latency ∷ []) in ground arith

-- A reset counts nothing for any proxy.
pub reset-counted : (es : List Entry) (id : ℤ) → counted (reset es) id ≡ zeroed id
unfolding reset
reset-counted [] id = refl
reset-counted (e ∷ es) id = elim (Bool-cases (eqb_ℤ e.proxy_id id)) [
  | inl y ↦ rw y refl
  | inr n ↦ rw n (reset-counted es id)
]
