-- ===== src/Inspect/Trackers.antt =====
-- What `domain_is_tracker` of daemon/src/main.c looks for.
use proxiflare.Prelude.{
  ℕ, zero, suc, ◌+◌, ◌-◌, ◌<◌, ◌≡◌, ◌≢◌, ◌⊎◌, ◌↔◌, inl, inr, refl, sym, ap, ◌∙◌, Bool, true, false,
  not, ◌&&◌, ◌||◌, List, [], ◌∷◌, ◌++◌, ◌==◌, leb, Bytes, length, get_or, take, drop, arith, eq_ci,
  lower, eq_ci_iff, length-lower, length-append, take-append-drop, Bool-cases, le→leb, ==_iff,
}
use mathlib.Core.List.{append_assoc}
use proxiflare.Rules.First.{and_true}
use proxiflare.Inspect.{tracker_domains, is_tracked_by, tracked_by_any, domain_is_tracker}

abbrev pub Any : {A : Type 0} → (A → Type 0) → List A → Type 0
Any P [] = ⊥
Any P (x ∷ xs) = P x ⊎ Any P xs

-- The domain ends with a tracker's name, in any case; what is before it is nothing or ends with a dot.
abbrev pub Under : Bytes → Bytes → Type 0
Under domain t =
    (before : Bytes) × (name : Bytes) × (domain ≡ before ++ name)
    × (lower name ≡ lower t)
    × ((before ≡ []) ⊎ ((start : Bytes) × (before ≡ start ++ b'.' ∷ [])))

abbrev pub IsTracked : Bytes → Type 0
IsTracked domain = (domain ≢ []) × Any (Under domain) tracker_domains

take-next : (k : ℕ) (d : Bytes) → k < length d → take (suc k) d ≡ take k d ++ get_or d k 0 ∷ []
take-next k [] lt = absurd (omega arith)
take-next zero (x ∷ d) lt = refl
take-next (suc k) (x ∷ d) lt = ap (◌∷◌ x) (take-next k d (omega arith))

get_or-middle : (a : Bytes) (c : ℕ) (b : Bytes) → get_or (a ++ c ∷ b) (length a) 0 ≡ c
get_or-middle [] c b = refl
get_or-middle (x ∷ a) c b = get_or-middle a c b

drop-front : (a b : Bytes) → drop (length a) (a ++ b) ≡ b
drop-front [] b = refl
drop-front (x ∷ a) b = drop-front a b

or_cases : (a b : Bool) → (a || b) ≡ true → (a ≡ true) ⊎ (b ≡ true)
or_cases true b h = inl refl
or_cases false b h = inr h

module _ (domain t : Bytes) where
  tracked-Under : is_tracked_by domain t ≡ true → Under domain t
  unfolding is_tracked_by
  tracked-Under h =
      let at = length domain - length t in
      let (h1, edge) =
        and_true (leb (length t) (length domain) && eq_ci (drop at domain) t)
          (at == 0 || get_or domain (at - 1) 0 == b'.') h in
      let (fits, same) = and_true (leb (length t) (length domain)) (eq_ci (drop at domain) t) h1 in
      (
        take at domain,
        drop at domain,
        sym (take-append-drop at domain),
        (eq_ci_iff (drop at domain) t).0 same,
        before_edge at (omega arith) (or_cases (at == 0) (get_or domain (at - 1) 0 == b'.') edge),
      )
    where
      before_edge :
          (at : ℕ)
          → at < length domain + 1
          → ((at == 0) ≡ true) ⊎ ((get_or domain (at - 1) 0 == b'.') ≡ true)
          → (take at domain ≡ []) ⊎ ((start : Bytes) × (take at domain ≡ start ++ b'.' ∷ []))
      before_edge zero lt e = inl refl
      before_edge (suc k) lt (inl e) = absurd (ground arith)
      before_edge (suc k) lt (inr e) =
          let same : suc k - 1 ≡ k = omega arith in
          let dot : get_or domain k 0 ≡ b'.' = (==_iff (get_or domain k 0) b'.').0 (rw same at e) in
          inr (take k domain, rw (← dot) (take-next k domain (omega arith)))

  Under-tracked : Under domain t → is_tracked_by domain t ≡ true
  unfolding is_tracked_by
  Under-tracked (before, name, e, same, edge) =
      let n : length name ≡ length t = sym (length-lower name) ∙ ap length same ∙ length-lower t in
      let total : length domain ≡ length before + length name =
        ap length e ∙ length-append before name in
      let at : length domain - length t ≡ length before = omega arith in
      let fits : leb (length t) (length domain) ≡ true = le→leb _ _ (omega arith) in
      let tail : drop (length before) domain ≡ name =
        ap (drop (length before)) e ∙ drop-front before name in
      let hit : eq_ci name t ≡ true = (eq_ci_iff name t).1 same in
      rw (at, fits, tail, hit) (edge_at edge)
    where
      edge_at :
          ((before ≡ []) ⊎ ((start : Bytes) × (before ≡ start ++ b'.' ∷ [])))
          → (length before == 0 || get_or domain (length before - 1) 0 == b'.') ≡ true
      edge_at (inl none_before) = rw none_before refl
      edge_at (inr (start, s)) =
          let whole : domain ≡ start ++ (b'.' ∷ name) =
            e ∙ ap (λ b. b ++ name) s ∙ append_assoc start (b'.' ∷ []) name in
          let len : length before ≡ length start + 1 =
            ap length s ∙ length-append start (b'.' ∷ []) in
          let at : length before - 1 ≡ length start = omega arith in
          let dot : get_or domain (length before - 1) 0 ≡ b'.' =
            ap (λ k. get_or domain k 0) at
            ∙ ap (λ d. get_or d (length start) 0) whole
            ∙ get_or-middle start b'.' name in
          let no : (length before == 0) ≡ false = ground arith in rw (no, dot) refl

Any-iff :
    (domain : Bytes) (ts : List Bytes) → (tracked_by_any ts domain ≡ true) ↔ Any (Under domain) ts
unfolding tracked_by_any
Any-iff domain [] = ((λ e. cc), λ n. absurd n)
Any-iff domain (t ∷ ts) = (
  λ e. elim (or_cases (is_tracked_by domain t) (tracked_by_any ts domain) e) [
    | inl h ↦ inl (tracked-Under domain t h)
    | inr h ↦ inr ((Any-iff domain ts).0 h)
  ],
  λ a. elim a [
    | inl u ↦ rw (Under-tracked domain t u) refl
    | inr u ↦ elim (Bool-cases (is_tracked_by domain t)) [
      | inl y ↦ rw y refl
      | inr n ↦ rw n ((Any-iff domain ts).1 u)
    ]
  ],
)

-- A domain is taken for a tracker's exactly if it is one of theirs, or lies below one.
pub domain_is_tracker_iff : (domain : Bytes) → (domain_is_tracker domain ≡ true) ↔ IsTracked domain
unfolding domain_is_tracker
domain_is_tracker_iff [] = ((λ e. cc), λ h. absurd (h.0 refl))
domain_is_tracker_iff (c ∷ s) =
    let some_byte : not (length (c ∷ s) == 0) ≡ true = ground arith in
    (
      λ e. ((λ z. cc), (Any-iff (c ∷ s) tracker_domains).0 (rw some_byte at e)),
      λ h. rw some_byte ((Any-iff (c ∷ s) tracker_domains).1 h.1),
    )
