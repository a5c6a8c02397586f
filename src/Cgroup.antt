-- ===== src/Cgroup.antt =====
-- daemon/src/cgroup.c: the cgroups of the rules and the processes in them. What the file system
-- answers is the record `Files`, over a world that its calls change. PF_CGROUP_BASE is
-- "/sys/fs/cgroup/proxiflare". Process ids are not negative.
pub mod Tokens
use proxiflare.Prelude.{
  ℕ, zero, suc, ◌+◌, Bool, true, false, not, ◌&&◌, ◌||◌, Option, none, some, List, [], ◌∷◌, ◌++◌,
  ◌==◌, leb, ltb, if◌then◌else◌, Bytes, length, take, codes, bytes_eq, split_at, c_text,
}
use proxiflare.Prelude.Int.{pos_part, is_digit, atoi}
use proxiflare.Libc.{Libc}
use proxiflare.Rules.Match.{match_app, after_last}
use proxiflare.Nft.{number, has_prefix}

-- mkdir and rmdir, as far as errno matters.
pub data Made : Type 0 where
  made exists not_made : Made

pub data Removed : Type 0 where
  removed absent busy not_removed : Removed

pub record Files (W : Type 0) : Type 0 where
  pub mkdir : Bytes → W → Made × W
  pub rmdir : Bytes → W → Removed × W
  -- open for writing and one write(): how many bytes it took
  pub write : Bytes → Bytes → W → Option ℕ × W
  -- fopen and the lines as fgets delivers them
  pub lines_of : Bytes → W → Option (List Bytes) × W
  -- open and one read() into a buffer of that size
  pub read : Bytes → ℕ → W → Option Bytes × W
  -- opendir and the names as readdir delivers them
  pub names_in : Bytes → W → Option (List Bytes) × W
  -- readlink into a buffer of that size
  pub readlink : Bytes → ℕ → W → Option Bytes × W

abbrev pub M : Type 0 → Type 0 → Type 0
M W A = W → A × W

infixl 5 ◌>>=◌
abbrev pub ◌>>=◌ : {W A B : Type 0} → M W A → (A → M W B) → M W B
◌>>=◌ m f w = let (a, w') = m w in f a w'

abbrev pub ret : {W A : Type 0} → A → M W A
ret a w = (a, w)

abbrev pub base : Bytes
base = codes "/sys/fs/cgroup/proxiflare"

abbrev pub base_procs : Bytes
base_procs = base ++ codes "/cgroup.procs"

-- `rule_path`, whose text fits any buffer here.
unfoldable pub rule_path : ℕ → Option Bytes
unfolding number
rule_path rule_id = if rule_id == 0 then none else some (base ++ (codes "/rule_" ++ number rule_id))

-- A line without its newline.
unfoldable pub chomp : Bytes → Bytes
chomp [] = []
chomp (x ∷ s) = let rest = chomp s in if x == 10 && length s == 0 then [] else x ∷ rest

-- The scan of `pf_cgroup_remove_pid`: is the id a complete token of the text? The rounds left; a
-- round takes a byte at least.
unfoldable pub token_loop : ℕ → Bytes → Bytes → Bool
unfolding split_at bytes_eq
token_loop fuel pidstr [] = false
token_loop zero pidstr (x ∷ s) = false
token_loop (suc fuel) pidstr (x ∷ s) =
    let (token, behind) = split_at 10 (x ∷ s) in
    let next : Bool = elim behind [ none ↦ false | some rest ↦ token_loop fuel pidstr rest ] in
    if bytes_eq token pidstr then true else next

unfoldable pub has_token : Bytes → Bytes → Bool
unfolding token_loop
has_token pidstr text = token_loop (length text) pidstr text

abbrev pub all_digits : Bytes → Bool
all_digits [] = true
all_digits (c ∷ s) = is_digit c && all_digits s

-- What stands behind the last slash, or all.
abbrev pub base_name : Bytes → Bytes
base_name path = elim (after_last b'/' path) [ none ↦ path | some b ↦ b ]

-- The full path, or the last components alone.
unfoldable pub runs_app : Libc → Bytes → Bytes → Bool
unfolding match_app bytes_eq
runs_app libc app_pattern exe_path =
    match_app libc app_pattern exe_path || bytes_eq (base_name exe_path) (base_name app_pattern)

module _ {W : Type 0} (fs : Files W) where
  unfoldable pub write_file : Bytes → Bytes → M W Bool
  write_file path text = do
    w ← fs.write path text
    elim w [ none ↦ ret false | some n ↦ ret (n == length text) ]

  unfoldable pub cgroup_init : M W Bool
  cgroup_init = do r ← fs.mkdir base; elim r [ not_made ↦ ret false | _ ↦ ret true ]

  unfoldable pub create_rule : ℕ → M W Bool
  unfolding rule_path
  create_rule rule_id = elim (rule_path rule_id) [
    | none ↦ ret false
    | some path ↦ do r ← fs.mkdir path; elim r [ not_made ↦ ret false | _ ↦ ret true ]
  ]

  -- The processes of a busy cgroup go to the base, one by one; failures do not matter.
  unfoldable pub move_out : List Bytes → M W (Unit {0})
  unfolding write_file chomp
  move_out [] = ret tt
  move_out (l ∷ ls) = do
    _ ← if length (chomp l) == 0 then ret false else write_file base_procs (chomp l)
    move_out ls

  unfoldable pub drain_rule : Bytes → M W Bool
  unfolding move_out
  drain_rule path = do
    lines ← fs.lines_of (path ++ codes "/cgroup.procs")
    _ ← elim lines [ none ↦ ret tt | some ls ↦ move_out ls ]
    r ← fs.rmdir path
    elim r [ removed ↦ ret true | absent ↦ ret true | _ ↦ ret false ]

  unfoldable pub remove_rule : ℕ → M W Bool
  unfolding rule_path drain_rule
  remove_rule rule_id = elim (rule_path rule_id) [
    | none ↦ ret false
    | some path ↦ do
      r ← fs.rmdir path
      elim r [
        | removed ↦ ret true
        | absent ↦ ret true
        | not_removed ↦ ret false
        | busy ↦ drain_rule path
      ]
  ]

  unfoldable pub assign_pid : ℕ → ℕ → M W Bool
  unfolding rule_path write_file
  assign_pid rule_id pid = elim (rule_path rule_id) [
    | none ↦ ret false
    | some path ↦ write_file (path ++ codes "/cgroup.procs") (number pid)
  ]

  -- One entry of /proc.
  unfoldable pub assign_entry : Libc → ℕ → Bytes → Bytes → M W ℕ
  unfolding runs_app assign_pid atoi
  assign_entry libc rule_id app_pattern name =
      if length name == 0 || not (all_digits name) then ret 0 else (do
        link ← fs.readlink (take 63 (codes "/proc/" ++ (name ++ codes "/exe"))) 4095
        elim link [
          | none ↦ ret 0
          | some exe ↦
              if length exe == 0 || not (runs_app libc app_pattern (c_text exe))
              then ret 0
              else (do ok ← assign_pid rule_id (pos_part (atoi name)); ret (if ok then 1 else 0))
        ])

  unfoldable pub assign_entries : Libc → ℕ → Bytes → List Bytes → M W ℕ
  unfolding assign_entry
  assign_entries libc rule_id app_pattern [] = ret 0
  assign_entries libc rule_id app_pattern (e ∷ es) = do
    n ← assign_entry libc rule_id app_pattern e
    k ← assign_entries libc rule_id app_pattern es
    ret (n + k)

  unfoldable pub assign_running_pids : Libc → ℕ → Bytes → M W ℕ
  unfolding assign_entries
  assign_running_pids libc rule_id app_pattern = if length app_pattern == 0 then ret 0 else do
    names ← fs.names_in (codes "/proc")
    elim names [ none ↦ ret 0 | some es ↦ assign_entries libc rule_id app_pattern es ]

  -- The loop of `pf_cgroup_remove_pid` over the cgroups: the first that lists the process.
  unfoldable pub remove_from : Bytes → List Bytes → M W Bool
  unfolding has_prefix has_token write_file
  remove_from pidstr [] = ret true
  remove_from pidstr (e ∷ es) =
      if not (has_prefix (codes "rule_") e) then remove_from pidstr es else do
        text ← fs.read (base ++ (b'/' ∷ (e ++ codes "/cgroup.procs"))) 4095
        elim text [
          | none ↦ remove_from pidstr es
          | some t ↦ elim (has_token pidstr (c_text t)) [
            | false ↦ remove_from pidstr es
            | true ↦ do _ ← write_file base_procs pidstr; ret true
          ]
        ]

  unfoldable pub remove_pid : ℕ → M W Bool
  unfolding remove_from
  remove_pid pid = do
    names ← fs.names_in base
    elim names [ none ↦ ret false | some es ↦ remove_from (number pid) es ]

  unfoldable pub remove_dirs : List Bytes → M W (Unit {0})
  unfolding has_prefix
  remove_dirs [] = ret tt
  remove_dirs (e ∷ es) = do
    _ ← if has_prefix (codes "rule_") e then fs.rmdir (base ++ (b'/' ∷ e)) else ret absent
    remove_dirs es

  unfoldable pub cleanup : M W (Unit {0})
  unfolding remove_dirs
  cleanup = do
    names ← fs.names_in base
    elim names [ none ↦ ret tt | some es ↦ do _ ← remove_dirs es; _ ← fs.rmdir base; ret tt ]
