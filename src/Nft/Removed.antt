-- ===== src/Nft/Removed.antt =====
-- Which rules daemon/src/nft.c removes by a comment.
use proxiflare.Prelude.{
  ℕ, zero, suc, ◌<◌, ◌≡◌, inl, inr, refl, sym, ap, ◌∙◌, true, Option, none, some, List, [], ◌∷◌,
  ◌++◌, Bytes, take, codes, Bool-cases, Option-cases, arith, ==_refl, map, drop,
}
use mathlib.Core.List.{append_assoc, reverse, reverse-cons, reverse-reverse, map-append}
use proxiflare.Prelude.Int.{ℤ, pos, negsuc, atoi}
use proxiflare.Nft.{
  NftTool, State, has_prefix, strstr, handle_mark, handle_in, collect, delete_command, place,
  nft_run, delete_all, delete_listed, delete_by_comment, cgroup_comment, remove_cgroup_mark,
  positive, number,
}

has_prefix-append : (p s : Bytes) → has_prefix p (p ++ s) ≡ true
unfolding has_prefix
has_prefix-append [] s = refl
has_prefix-append (x ∷ p) s = rw (==_refl x) (has_prefix-append p s)

-- What a text holds is found.
strstr-append : (a p b : Bytes) → (t : Bytes) × (strstr (a ++ (p ++ b)) p ≡ some t)
unfolding strstr has_prefix
strstr-append [] [] [] = ([], refl)
strstr-append [] [] (x ∷ b) = (x ∷ b, refl)
strstr-append [] (x ∷ p) b = (x ∷ (p ++ b), rw (==_refl x, has_prefix-append p b) refl)
strstr-append (x ∷ a) p b = elim (Bool-cases (has_prefix p (x ∷ (a ++ (p ++ b))))) [
  | inl y ↦ (x ∷ (a ++ (p ++ b)), rw y refl)
  | inr n ↦ let (t, e) = strstr-append a p b in (t, rw n e)
]

-- A comment that starts with another is found by that one too.
prefix_found : (a p more b : Bytes) → (t : Bytes) × (strstr (a ++ ((p ++ more) ++ b)) p ≡ some t)
prefix_found a p more b = rw (append_assoc p more b) (strstr-append a p (more ++ b))

-- The handles that a removal by a comment meets, in the order of the listing.
abbrev pub handles_of : Bytes → List Bytes → List ℕ
handles_of comment [] = []
handles_of comment (l ∷ ls) = elim (handle_in comment l) [
  | none ↦ handles_of comment ls
  | some h ↦ h ∷ handles_of comment ls
]

collect-take :
    (room : ℕ) (comment : Bytes) (ls : List Bytes)
    → collect room comment ls ≡ take room (handles_of comment ls)
unfolding collect
collect-take zero comment ls = refl
collect-take (suc room) comment [] = refl
collect-take (suc room) comment (l ∷ ls) =
    step (handle_in comment l) (collect-take (suc room) comment ls) (collect-take room comment ls)
  where
    step :
        (o : Option ℕ)
        → collect (suc room) comment ls ≡ take (suc room) (handles_of comment ls)
        → collect room comment ls ≡ take room (handles_of comment ls)
        → (elim o [ none ↦ collect (suc room) comment ls | some h ↦ h ∷ collect room comment ls ])
          ≡ take
              (suc room)
              (elim o [ none ↦ handles_of comment ls | some h ↦ h ∷ handles_of comment ls ])
    step none same less = same
    step (some h) same less = ap (◌∷◌ h) less

handle_found :
    (comment line t text : Bytes) (handle : ℕ)
    → strstr line comment ≡ some t
    → strstr line handle_mark ≡ some text
    → positive (atoi (drop 9 text)) ≡ some handle
    → handle_in comment line ≡ some handle
unfolding handle_in
handle_found comment line t text handle e m p = rw (e, handle_in, m) p

-- The line holds the comment, and "# handle " with a positive number behind it.
abbrev pub Shows : Bytes → Bytes → ℕ → Type 0
Shows comment line h =
    (at : Bytes) × (text : Bytes) × (strstr line comment ≡ some at)
    × (strstr line (codes "# handle ") ≡ some text)
    × (atoi (drop 9 text) ≡ pos h)
    × (0 < h)

-- The handles that the lines show, in their order; a line without one is passed over.
pub data Lists (comment : Bytes) : List Bytes → List ℕ → Type 0 where
  end : Lists comment [] []
  shown :
      {line : Bytes} {lines : List Bytes} {h : ℕ} {hs : List ℕ}
      → Shows comment line h
      → Lists comment lines hs
      → Lists comment (line ∷ lines) (h ∷ hs)
  other :
      {line : Bytes} {lines : List Bytes} {hs : List ℕ}
      → ((h : ℕ) → ¬ Shows comment line h)
      → Lists comment lines hs
      → Lists comment (line ∷ lines) hs

positive-some : (z : ℤ) (h : ℕ) → positive z ≡ some h → (z ≡ pos h) × (0 < h)
positive-some (pos zero) h e = cc
positive-some (pos (suc n)) h e = let same : suc n ≡ h = cc in (ap pos same, omega arith)
positive-some (negsuc n) h e = cc

positive-pos : (z : ℤ) (h : ℕ) → z ≡ pos h → 0 < h → positive z ≡ some h
positive-pos z zero e lt = absurd (omega arith)
positive-pos z (suc n) e lt = rw e refl

handle-Shows :
    (comment line : Bytes) (h : ℕ) → handle_in comment line ≡ some h → Shows comment line h
unfolding handle_in
handle-Shows comment line h e = elim (Option-cases (strstr line comment)) [
  | inl z ↦ let k : none ≡ some h = rw (handle_in, z) at e in cc
  | inr (at, z) ↦ elim (Option-cases (strstr line (codes "# handle "))) [
    | inl y ↦ let k : none ≡ some h = rw (handle_in, z, y) at e in cc
    | inr (text, y) ↦
        let p : positive (atoi (drop 9 text)) ≡ some h = rw (handle_in, z, y) at e in
        let (n, lt) = positive-some (atoi (drop 9 text)) h p in (at, text, z, y, n, lt)
  ]
]

handles_of-Lists :
    (comment : Bytes) (lines : List Bytes) → Lists comment lines (handles_of comment lines)
handles_of-Lists comment [] = end
handles_of-Lists comment (l ∷ ls) = elim (Option-cases (handle_in comment l)) [
  | inr (h, e) ↦
      rw (handles_of, e) (shown (handle-Shows comment l h e) (handles_of-Lists comment ls))
  | inl z ↦
      rw (handles_of, z)
        (other
          (λ h (at, text, found, marked, n, lt).
            (let w =
                handle_found comment l at text h found marked
                  (positive-pos (atoi (drop 9 text)) h n lt) in
              cc))
          (handles_of-Lists comment ls))
]

-- "delete rule inet proxiflare output handle %d", in a buffer of 256 bytes.
abbrev pub deletion : ℕ → Bytes
deletion handle =
    take 255 (codes "delete rule inet proxiflare output handle " ++ (number handle ++ codes "\n"))

-- "pf_cgroup_%d", in a buffer of 64 bytes.
abbrev pub mark_of : ℕ → Bytes
mark_of rule_id = take 63 (codes "pf_cgroup_" ++ number rule_id)

-- The text of the listing that a removal reads.
abbrev pub list_command : Bytes → Bytes
list_command at = take 255 (codes "nft -a list chain " ++ (at ++ codes " 2>/dev/null"))

abbrev pub output_chain : Bytes
output_chain = place (codes "inet") (codes "proxiflare") (codes "output")

handles_one :
    (comment line : Bytes) (handle : ℕ)
    → handle_in comment line ≡ some handle
    → handles_of comment (line ∷ []) ≡ handle ∷ []
handles_one comment line handle e = rw (e, handles_of) refl

module _ {W : Type 0} (tool : NftTool W) where
  delete_all-sent :
      (at : Bytes) (hs : List ℕ) (s : State W)
      → (delete_all tool at hs s).1.sent ≡ map (delete_command at) (reverse hs) ++ s.sent
  unfolding delete_all nft_run
  delete_all-sent at [] s = refl
  delete_all-sent at (h ∷ hs) s =
      delete_all-sent at hs (nft_run tool (delete_command at h) s).1
      ∙ sym (
          rw (reverse-cons h hs, map-append (delete_command at) (reverse hs) (h ∷ []))
            (append_assoc (map (delete_command at) (reverse hs)) (delete_command at h ∷ []) s.sent))

  delete_listed-sent :
      (at comment : Bytes) (o : Option (List Bytes)) (lines : List Bytes) (s : State W)
      → o ≡ some lines
      → (delete_listed tool at comment o s).1.sent
        ≡ map (delete_command at) (take 256 (handles_of comment lines)) ++ s.sent
  unfolding delete_listed
  delete_listed-sent at comment none lines s e = cc
  delete_listed-sent at comment (some ls) lines s e =
      let same : ls ≡ lines = cc in
      rw same (
        delete_all-sent at (reverse (collect 256 comment lines)) s
        ∙ rw (reverse-reverse (collect 256 comment lines), collect-take 256 comment lines))

  removal_sent :
      (rule_id : ℕ) (lines : List Bytes) (s : State W)
      → (tool.lines_of (list_command output_chain) s.world).0 ≡ some lines
      → (remove_cgroup_mark tool rule_id s).1.sent
        ≡ map (delete_command output_chain) (take 256 (handles_of (cgroup_comment rule_id) lines))
          ++ s.sent
  unfolding remove_cgroup_mark delete_by_comment
  removal_sent rule_id lines s e =
      delete_listed-sent output_chain (cgroup_comment rule_id)
        (tool.lines_of (list_command output_chain) s.world).0 lines
        (record s { world = (tool.lines_of (list_command output_chain) s.world).1 }) e

  -- If the chain can be listed, `pf_nft_remove_cgroup_mark` deletes the rules by their handles: the
  -- first 256 in the listing whose line holds "pf_cgroup_" and the id, and a positive handle behind
  -- "# handle ". The last of them is deleted first, and nothing else is handed to nft.
  pub remove_cgroup_mark_sent :
      (rule_id : ℕ) (lines : List Bytes) (s : State W)
      → (tool.lines_of (codes "nft -a list chain inet proxiflare output 2>/dev/null") s.world).0
        ≡ some lines
      → (hs : List ℕ) × Lists (mark_of rule_id) lines hs
        × ((remove_cgroup_mark tool rule_id s).1.sent ≡ map deletion (take 256 hs) ++ s.sent)
  unfolding cgroup_comment delete_command
  remove_cgroup_mark_sent rule_id lines s e = (
    handles_of (cgroup_comment rule_id) lines,
    handles_of-Lists (cgroup_comment rule_id) lines,
    removal_sent rule_id lines s e,
  )

  -- Removing the mark of a rule also deletes the mark of another rule, if the comment of that one
  -- starts with the comment of the first, as those of the rules 1 and 12 do: it suffices that the
  -- listing shows that mark, with a positive handle.
  pub remove_cgroup_mark_longer :
      (rule_id : ℕ) (more before behind text : Bytes) (handle : ℕ) (s : State W)
      → let line = before ++ ((cgroup_comment rule_id ++ more) ++ behind) in
        (tool.lines_of (list_command output_chain) s.world).0 ≡ some (line ∷ [])
        → strstr line handle_mark ≡ some text
        → positive (atoi (drop 9 text)) ≡ some handle
        → (remove_cgroup_mark tool rule_id s).1.sent ≡ delete_command output_chain handle ∷ s.sent
  remove_cgroup_mark_longer rule_id more before behind text handle s listed marked positive_handle =
      let comment = cgroup_comment rule_id in
      let line = before ++ ((comment ++ more) ++ behind) in
      let found = prefix_found before comment more behind in
      let h = handle_found comment line found.0 text handle found.1 marked positive_handle in
      removal_sent rule_id (line ∷ []) s listed
      ∙ ap (λ hs. map (delete_command output_chain) (take 256 hs) ++ s.sent)
          (handles_one comment line handle h)
