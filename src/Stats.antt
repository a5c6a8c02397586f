-- ===== src/Stats.antt =====
-- daemon/src/stats.c: the counters of each proxy. `entries` holds the first `count` entries. The
-- byte counters wrap at 64 bits; the `int` counters are those of a run in which none of them passes
-- the largest `int`, behind which C leaves the sum undefined.
pub mod Counts
use proxiflare.Prelude.{
  ℕ, ◌+◌, ◌/◌, ◌%◌, ◌^◌, Option, none, some, List, [], ◌∷◌, ◌++◌, map, leb, ltb, if◌then◌else◌,
  length,
}
use proxiflare.Prelude.Int.{ℤ, eqb_ℤ, pos_part}

-- PF_MAX_PROXIES
abbrev pub max_proxies : ℕ
max_proxies = 256

pub record Entry : Type 0 where
  pub proxy_id : ℤ
  pub bytes_tx : ℕ
  pub bytes_rx : ℕ
  pub connections : ℕ
  pub total_latency_ms : ℕ
  pub latency_count : ℕ

-- `memset(e, 0, sizeof(*e)); e->proxy_id = proxy_id;`
abbrev pub zeroed : ℤ → Entry
zeroed id = record {
  proxy_id = id;
  bytes_tx = 0;
  bytes_rx = 0;
  connections = 0;
  total_latency_ms = 0;
  latency_count = 0;
}

-- `memset` of the whole table.
abbrev pub no_entries : List Entry
no_entries = []

-- A pointer into the table: the entry, and those before and behind it.
pub record Focus : Type 0 where
  pub before : List Entry
  pub entry : Entry
  pub after : List Entry

unfoldable pub find : List Entry → ℤ → Option Focus
find [] id = none
find (e ∷ es) id =
    let rest : Option Focus = elim (find es id) [
      | none ↦ none
      | some f ↦ some (record f { before = e ∷ f.before })
    ] in
    if eqb_ℤ e.proxy_id id then some (record { before = []; entry = e; after = es }) else rest

unfoldable pub find_or_create : List Entry → ℤ → Option Focus
unfolding find
find_or_create es id = elim (find es id) [
  | some f ↦ some f
  | none ↦
      if leb max_proxies (length es)
      then none
      else some (record { before = es; entry = zeroed id; after = [] })
]

-- What `pf_stats_update` does to the entry that it has found; only a positive latency is a sample.
unfoldable pub bump : Entry → ℕ → ℕ → ℤ → Entry
bump e bytes_tx bytes_rx latency_ms = record e {
  bytes_tx = (e.bytes_tx + bytes_tx) % 2 ^ 64;
  bytes_rx = (e.bytes_rx + bytes_rx) % 2 ^ 64;
  connections = e.connections + 1;
  total_latency_ms = e.total_latency_ms + pos_part latency_ms;
  latency_count = if ltb 0 (pos_part latency_ms) then e.latency_count + 1 else e.latency_count;
}

unfoldable pub update : List Entry → ℤ → ℕ → ℕ → ℤ → List Entry
unfolding find_or_create bump
update es id bytes_tx bytes_rx latency_ms = elim (find_or_create es id) [
  | none ↦ es
  | some f ↦ f.before ++ bump f.entry bytes_tx bytes_rx latency_ms ∷ f.after
]

-- `avg_latency` of `pf_stats_get_json`.
unfoldable pub avg_latency : Entry → ℕ
avg_latency e = if ltb 0 e.latency_count then e.total_latency_ms / e.latency_count else 0

unfoldable pub reset : List Entry → List Entry
reset es = map (λ e. zeroed e.proxy_id) es
