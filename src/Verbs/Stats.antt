-- ===== src/Verbs/Stats.antt =====
-- `db_verb_cache_stats` of server/db_verbs.c: the counters of the verb cache and how many buckets
-- have how many entries.
use waverous.Base.{
  ℕ, zero, suc, ◌+◌, ◌≤◌, ◌<◌, ◌≡◌, refl, ap, ◌∙◌, Option, none, some, pos, List, [], ◌∷◌, map,
  arith, leb, if◌then◌else◌, length,
}
use waverous.Values.{Var, int, list, of_items}
use waverous.Database.{VcEntry}
use waverous.Database.Run.{Cmd, pure, gets, ◌>>=◌}
use waverous.Verbs.Cache.{Buckets, vc_size}

-- `VC_CACHE_STATS_MAX`
abbrev pub vc_cache_stats_max : ℕ
vc_cache_stats_max = 16

-- The number of entries, cut off at the last column.
unfoldable pub depth : List VcEntry → ℕ
depth bucket = if leb (length bucket) vc_cache_stats_max then length bucket else vc_cache_stats_max

-- `histogram[depth]++`
unfoldable pub bump : ℕ → List ℕ → List ℕ
bump k [] = []
bump zero (n ∷ ns) = (n + 1) ∷ ns
bump (suc k) (n ∷ ns) = n ∷ bump k ns

unfoldable pub histogram_loop : (left i : ℕ) → Buckets → List ℕ → List ℕ
unfolding bump depth
histogram_loop zero i table histogram = histogram
histogram_loop (suc left) i table histogram =
    histogram_loop left (i + 1) table (bump (depth (table i)) histogram)

abbrev pub zeros : ℕ → List ℕ
zeros zero = []
zeros (suc n) = 0 ∷ zeros n

-- The size of the table is 0 until there is one.
unfoldable pub histogram : Option Buckets → List ℕ
unfolding histogram_loop
histogram none = zeros (vc_cache_stats_max + 1)
histogram (some table) = histogram_loop vc_size 0 table (zeros (vc_cache_stats_max + 1))

abbrev pub ints : List ℕ → Var
ints ns = list (of_items (map (λ n. int (pos n)) ns))

unfoldable pub db_verb_cache_stats : Cmd Var
unfolding histogram of_items
db_verb_cache_stats = do
  db ← gets (λ db. db)
  pure (
      list (
        of_items (
          int (pos db.verbcache_hit)
          ∷ int (pos db.verbcache_neg_hit)
          ∷ int (pos db.verbcache_miss)
          ∷ int (pos db.db_verb_generation)
          ∷ ints (histogram db.vc_table)
          ∷ [])))

abbrev pub sum : List ℕ → ℕ
sum [] = 0
sum (n ∷ ns) = n + sum ns

sum-bump :
    (k : ℕ) (ns : List ℕ)
    → k < length ns
    → (sum (bump k ns) ≡ sum ns + 1) × (length (bump k ns) ≡ length ns)
unfolding bump
sum-bump k [] h = absurd (omega arith)
sum-bump zero (n ∷ ns) h = (omega arith, refl)
sum-bump (suc k) (n ∷ ns) h =
    let (s, l) = sum-bump k ns (omega arith) in (omega (arith, s), ap suc l)

depth-le : (bucket : List VcEntry) → depth bucket ≤ 16
unfolding depth
depth-le bucket = ground arith

sum-histogram_loop :
    (left i : ℕ) (table : Buckets) (ns : List ℕ)
    → length ns ≡ 17
    → sum (histogram_loop left i table ns) ≡ sum ns + left
unfolding histogram_loop
sum-histogram_loop zero i table ns h = omega arith
sum-histogram_loop (suc left) i table ns h =
    let (s, l) = sum-bump (depth (table i)) ns (omega (arith, h, depth-le (table i))) in
    omega (arith, sum-histogram_loop left (i + 1) table (bump (depth (table i)) ns) (l ∙ h), s)

-- Once there is a table, the columns of the histogram add up to the number of its buckets.
pub sum-histogram : (table : Buckets) → sum (histogram (some table)) ≡ vc_size
unfolding histogram of_items
sum-histogram table = sum-histogram_loop 7507 0 table (zeros 17) refl
