-- ===== src/Cgroup/Tokens.antt =====
-- The search for a process in the text of cgroup.procs.
use proxiflare.Prelude.{
  ℕ, zero, suc, ◌≤◌, ◌≡◌, refl, ap, ◌∙◌, Bool, true, false, ◌||◌, Option, none, some, List, [], ◌∷◌,
  ◌++◌, if◌then◌else◌, Bytes, length, length-append, bytes_eq, contains_byte, split_at,
  split_at-append, arith,
}
use proxiflare.Cgroup.{token_loop, has_token}

-- One id to a line, as the kernel lists them.
abbrev pub listing : List Bytes → Bytes
listing [] = []
listing (l ∷ ls) = l ++ 10 ∷ listing ls

abbrev pub AreLines : List Bytes → Type 0
AreLines [] = Unit
AreLines (l ∷ ls) = (contains_byte 10 l ≡ false) × AreLines ls

abbrev pub any_is : Bytes → List Bytes → Bool
any_is p [] = false
any_is p (l ∷ ls) = bytes_eq l p || any_is p ls

-- One round, by what the first newline splits.
token_loop-step :
    (fuel : ℕ) (p : Bytes) (x : ℕ) (s token rest : Bytes)
    → split_at 10 (x ∷ s) ≡ (token, some rest)
    → token_loop (suc fuel) p (x ∷ s) ≡ (bytes_eq token p || token_loop fuel p rest)
unfolding token_loop
token_loop-step fuel p x s token rest e =
    ap
      (λ (q : Bytes × Option Bytes).
        if bytes_eq q.0 p then true else (elim q.1 [ none ↦ false | some r ↦ token_loop fuel p r ]))
      e
    ∙ either (bytes_eq token p) (token_loop fuel p rest)
  where
    either : (a b : Bool) → (if a then true else b) ≡ (a || b)
    either true b = refl
    either false b = refl

nothing_left : (fuel : ℕ) (p : Bytes) → token_loop fuel p [] ≡ false
unfolding token_loop
nothing_left zero p = refl
nothing_left (suc fuel) p = refl

token_loop-listing :
    (fuel : ℕ) (p : Bytes) (ls : List Bytes)
    → AreLines ls
    → length (listing ls) ≤ fuel
    → token_loop fuel p (listing ls) ≡ any_is p ls
token_loop-listing fuel p [] h le = nothing_left fuel p
token_loop-listing zero p (l ∷ ls) h le = absurd (omega (arith, length-append l (10 ∷ listing ls)))
token_loop-listing (suc fuel) p ([] ∷ ls) h le =
    token_loop-step fuel p 10 (listing ls) [] (listing ls) (split_at-append 10 [] (listing ls) h.0)
    ∙ ap (λ b. bytes_eq [] p || b) (token_loop-listing fuel p ls h.1 (omega arith))
token_loop-listing (suc fuel) p ((x ∷ l) ∷ ls) h le =
    token_loop-step fuel p x (l ++ 10 ∷ listing ls) (x ∷ l) (listing ls)
      (split_at-append 10 (x ∷ l) (listing ls) h.0)
    ∙ ap (λ b. bytes_eq (x ∷ l) p || b)
        (token_loop-listing fuel p ls h.1 (omega (arith, length-append l (10 ∷ listing ls))))

-- In a text of lines without further newlines, the scan of `pf_cgroup_remove_pid` finds an id exactly
-- if it is one of the lines, never as a part of a longer one; and its loop ends within its rounds.
pub has_token-listing :
    (pidstr : Bytes) (ls : List Bytes)
    → AreLines ls
    → has_token pidstr (listing ls) ≡ any_is pidstr ls
unfolding has_token
has_token-listing pidstr ls h = token_loop-listing (length (listing ls)) pidstr ls h (omega arith)
