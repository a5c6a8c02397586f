-- ===== src/Log/Refine.antt =====
-- The ring of the log holds the last 2000 entries, and "log.recent" returns those that are newer.
use proxiflare.Prelude.{
  ℕ, ◌+◌, ◌-◌, ◌%◌, ◌^◌, ◌≤◌, ◌<◌, ◌≡◌, refl, sym, ap, ◌∙◌, inl, inr, true, false, Option, none,
  some, List, [], ◌∷◌, ◌++◌, ltb, Bool, if◌then◌else◌, get_or, set, length, drop, arith, length-set,
  length-replicate, length-append, get_or-set_self, get_or-set_ne, Bool-cases, ltb→lt, ltb→le,
  le→ltb, lt→ltb,
}
use mathlib.Core.Path.{subst}
use proxiflare.Prelude.Int.{ℤ, pos, negsuc}
use proxiflare.Log.{
  Event, Entry, Log, ring_size, empty_log, log_event, newer_or, recent_loop, recent,
}

-- From slot `t` on, going round, the ring holds `es`.
abbrev Window : List (Option Entry) → ℕ → List Entry → Type 0
Window ring t [] = Unit
Window ring t (e ∷ es) = (get_or ring (t % ring_size) none ≡ some e) × Window ring (t + 1) es

-- The log holds the entries `es`, the oldest first.
pub record Holds (log : Log) (es : List Entry) : Type 0 where
  pub size : length log.ring ≡ ring_size
  pub head_fits : log.head < ring_size
  pub count_is : log.count ≡ length es
  pub bounded : length es ≤ ring_size
  pub window : Window log.ring (log.head + ring_size - log.count) es

Window-move :
    (ring : List (Option Entry)) (es : List Entry) (t t' : ℕ)
    → t % ring_size ≡ t' % ring_size
    → Window ring t es
    → Window ring t' es
Window-move ring [] t t' e w = w
Window-move ring (x ∷ es) t t' e w =
    (rw (sym e) w.0, Window-move ring es (t + 1) (t' + 1) (omega arith) w.1)

-- A write `n` slots on, behind the window.
Window-set :
    (ring : List (Option Entry)) (es : List Entry) (v : Option Entry) (t n i : ℕ)
    → length es ≤ n
    → n < ring_size
    → i ≡ (t + n) % ring_size
    → Window ring t es
    → Window (set ring i v) t es
Window-set ring [] v t n i le lt e w = w
Window-set ring (x ∷ es) v t n i le lt e w = (
  get_or-set_ne ring i (t % ring_size) v none (omega arith) ∙ w.0,
  Window-set ring es v (t + 1) (n - 1) i (omega arith) (omega arith)
      (e ∙ ap (λ k. k % ring_size) (omega arith)) w.1,
)

Window-concat :
    (ring : List (Option Entry)) (es : List Entry) (x : Entry) (t : ℕ)
    → Window ring t es
    → get_or ring ((t + length es) % ring_size) none ≡ some x
    → Window ring t (es ++ x ∷ [])
Window-concat ring [] x t w e = (ap (λ k. get_or ring k none) (omega arith) ∙ e, tt)
Window-concat ring (y ∷ es) x t w e = (
  w.0,
  Window-concat ring es x (t + 1) w.1
      (ap (λ k. get_or ring (k % ring_size) none) (omega arith) ∙ e),
)

empty_log-Holds : Holds empty_log []
unfolding empty_log
empty_log-Holds = record {
  size = length-replicate {A = Option Entry} ring_size none;
  head_fits = omega arith;
  count_is = refl;
  bounded = omega arith;
  window = tt;
}

-- A list that keeps its last 2000 entries.
abbrev pub keep : List Entry → Entry → List Entry
keep es e = if ltb (length es) ring_size then es ++ e ∷ [] else drop 1 es ++ e ∷ []

-- The write at the head, behind entries that leave a slot free.
written :
    (log : Log) (x : Entry) (es : List Entry) (t : ℕ)
    → length log.ring ≡ ring_size
    → log.head < ring_size
    → length es < ring_size
    → log.head ≡ (t + length es) % ring_size
    → Window log.ring t es
    → Window (set log.ring log.head (some x)) t (es ++ x ∷ [])
written log x es t size fits room at w =
    Window-concat _ es x t
      (Window-set log.ring es (some x) t (length es) log.head (omega arith) room at w)
      (rw (← at) (get_or-set_self log.ring log.head (some x) none (omega arith)))

-- The entry that an event becomes, with the number behind `seq`.
abbrev pub entry_of : ℕ → Event → Entry
entry_of seq event = record { seq = (seq + 1) % 2 ^ 64; event = event }

-- The log after an event, with its new count.
after_event : Log → Event → ℕ → Log
after_event log event count = record {
  ring = set log.ring log.head (some (entry_of log.log_seq event));
  head = (log.head + 1) % ring_size;
  count = count;
  log_seq = (log.log_seq + 1) % 2 ^ 64;
}

log_event-room :
    (log : Log) (event : Event)
    → ltb log.count ring_size ≡ true
    → log_event log event ≡ after_event log event (log.count + 1)
unfolding log_event after_event
log_event-room log event e = rw (log_event, e) refl

log_event-full :
    (log : Log) (event : Event)
    → ltb log.count ring_size ≡ false
    → log_event log event ≡ after_event log event log.count
unfolding log_event after_event
log_event-full log event e = rw (log_event, e) refl

-- Entries that leave a slot free, in front of the new one.
after_event-Holds :
    (log : Log) (event : Event) (es : List Entry) (t : ℕ)
    → length log.ring ≡ ring_size
    → log.head < ring_size
    → length es < ring_size
    → log.head ≡ (t + length es) % ring_size
    → Window log.ring t es
    → Holds (after_event log event (length es + 1)) (es ++ entry_of log.log_seq event ∷ [])
unfolding after_event
after_event-Holds log event es t size fits room at w =
    let x = entry_of log.log_seq event in
    record {
      size = length-set log.ring log.head (some x) ∙ size;
      head_fits = omega arith;
      count_is = omega (arith, length-append es (x ∷ []));
      bounded = omega (arith, length-append es (x ∷ []));
      window =
          Window-move _ (es ++ x ∷ []) t _ (omega arith) (written log x es t size fits room at w);
    }

log_event-Holds :
    (log : Log) (event : Event) (es : List Entry)
    → Holds log es
    → Holds (log_event log event) (keep es (entry_of log.log_seq event))
unfolding after_event
log_event-Holds log event es h = elim (Bool-cases (ltb (length es) ring_size)) [
  | inl lt ↦
      let room : length es < ring_size = ltb→lt _ _ lt in
      let n : log.count ≡ length es = h.count_is in
      rw (lt, log_event-room log event (lt→ltb log.count ring_size (omega arith)), n)
        (after_event-Holds log event es (log.head + ring_size - log.count) h.size h.head_fits room
          (omega (arith, h.head_fits)) h.window)
  | inr ge ↦ rw ge (full es h (ltb→le _ _ ge))
]
  where
    full :
        (es : List Entry)
        → Holds log es
        → ring_size ≤ length es
        → Holds (log_event log event) (drop 1 es ++ entry_of log.log_seq event ∷ [])
    full [] h ge = absurd (omega arith)
    full (y ∷ ys) h ge =
        let n : log.count ≡ length ys + 1 = h.count_is ∙ omega arith in
        let b : length ys + 1 ≡ ring_size = omega (arith, h.bounded) in
        rw (log_event-full log event (le→ltb log.count ring_size (omega arith)), n)
          (after_event-Holds log event ys (log.head + ring_size - log.count + 1) h.size h.head_fits
            (omega arith) (omega (arith, h.head_fits)) h.window.1)

-- The entries that are newer than a number.
abbrev pub newer_than : ℤ → ℕ → Bool
newer_than (pos since) seq = ltb since seq
newer_than (negsuc since) seq = true

abbrev pub newer : ℤ → List Entry → List Entry
newer since [] = []
newer since (e ∷ es) =
    let rest = newer since es in if newer_than since e.seq then e ∷ rest else rest

newer_or-newer_than :
    (since : ℤ) (e : Entry) (rest : List Entry)
    → newer_or since (some e) rest ≡ (if newer_than since e.seq then e ∷ rest else rest)
newer_or-newer_than (pos n) e rest = refl
newer_or-newer_than (negsuc n) e rest = refl

recent_loop-newer :
    (es : List Entry) (i : ℕ) (log : Log) (since : ℤ)
    → log.count ≤ ring_size
    → Window log.ring (log.head + ring_size - log.count + i) es
    → recent_loop (length es) i log since ≡ newer since es
unfolding recent_loop
recent_loop-newer [] i log since b w = refl
recent_loop-newer (e ∷ es) i log since b w =
    let at : log.head + i + ring_size - log.count ≡ log.head + ring_size - log.count + i =
      omega arith in
    rw (recent_loop, at, w.0)
      (newer_or-newer_than since e _
        ∙ ap (λ rest. if newer_than since e.seq then e ∷ rest else rest)
            (recent_loop-newer es (i + 1) log since b (Window-move _ es _ _ (omega arith) w.1)))

-- The ring after a run of events, and the entries that a list of the last 2000 keeps.
abbrev pub logged : Log → List Event → Log
logged log [] = log
logged log (e ∷ events) = logged (log_event log e) events

-- Numbered from `seq` on, starting with the entries `es`.
abbrev pub kept : ℕ → List Entry → List Event → List Entry
kept seq es [] = es
kept seq es (e ∷ events) = kept ((seq + 1) % 2 ^ 64) (keep es (entry_of seq e)) events

log_event-seq :
    (log : Log) (event : Event) → (log_event log event).log_seq ≡ (log.log_seq + 1) % 2 ^ 64
unfolding log_event
log_event-seq log event = refl

logged-Holds :
    (events : List Event) (seq : ℕ) (log : Log) (es : List Entry)
    → log.log_seq ≡ seq
    → Holds log es
    → Holds (logged log events) (kept seq es events)
logged-Holds [] seq log es n h = h
logged-Holds (e ∷ events) seq log es n h =
    logged-Holds events ((seq + 1) % 2 ^ 64) (log_event log e) (keep es (entry_of seq e))
      (log_event-seq log e ∙ ap (λ k. (k + 1) % 2 ^ 64) n)
      (subst (λ k. Holds (log_event log e) (keep es (entry_of k e))) n (log_event-Holds log e es h))

-- After any run of less than 2^53 events on the empty log, no two of which are written at once,
-- "log.recent" returns, in the order of the events, those whose number is greater than the one asked
-- for, all if that is negative, among the last 2000; the events are numbered from 1 on.
pub recent-logged :
    (events : List Event) (since : ℤ)
    → length events < 2 ^ 53
    → recent (logged empty_log events) since ≡ newer since (kept 0 [] events)
unfolding recent empty_log
recent-logged events since exact =
    let h = logged-Holds events 0 empty_log [] first empty_log-Holds in
    let es = kept 0 [] events in
    rw (recent, h.count_is)
      (recent_loop-newer es 0 (logged empty_log events) since (omega (arith, h.count_is, h.bounded))
        (Window-move _ es _ _ (omega arith) h.window))
  where
    first : empty_log.log_seq ≡ 0
    first = refl
