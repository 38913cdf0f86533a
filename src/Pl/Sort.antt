-- ===== src/Pl/Sort.antt =====
-- pl_hsort: heap sort in place. `less a b` is a `compare` of the caller that is not 0 when `a` goes
-- before `b`. The loops keep the item that sinks apart and move a hole.
pub mod Sinking
pub mod Phases
use rubsd.Prelude.{
  ℕ, zero, suc, ◌+◌, ◌-◌, ◌*◌, ◌/◌, ◌≤◌, ◌≡◌, arith, Bool, true, false, ltb, leb, if◌then◌else◌,
  List,
}
use rubsd.Prelude.Run.{Run, ok, fault, out_of_fuel, ◌>>=◌}
use rubsd.Prelude.Cells.{read, write}
use rubsd.Pl.State.{Pl, lst_esuccess, int_max}

-- `j << 1` of an int.
unfoldable pub twice : ℕ → Run ℕ
twice j = if leb (2 * j) int_max then ok (2 * j) else fault

pub twice-ok : (j : ℕ) → 2 * j ≤ int_max → twice j ≡ ok (2 * j)
unfolding twice
twice-ok j h = ground arith

module _ (less : ℕ → ℕ → Bool) where
  -- The larger child of `j` among the first `n` cells. The left child must be there.
  unfoldable pub larger_child : ℕ → List ℕ → ℕ → Run ℕ
  larger_child n a j = do
    j2 ← twice j
    if leb n (j2 + 2) then ok (j2 + 1) else (do
      left ← read a (j2 + 1)
      right ← read a (j2 + 2)
      ok (if less left right then j2 + 2 else j2 + 1))

  -- The inner loop of both phases: the hole at `j` sinks, until `tmp` can fill it. It returns the
  -- block and the place of the hole.
  unfoldable pub sink : ℕ → ℕ → ℕ → List ℕ → ℕ → Run (List ℕ × ℕ)
  sink zero n tmp a j = out_of_fuel
  sink (suc fuel) n tmp a j = do
    j2 ← twice j
    elim (leb (j2 + 2) n) [
      | true ↦ (do
        i ← larger_child n a j
        child ← read a i
        elim (less tmp child) [
          | true ↦ (do b ← write a j child; sink fuel n tmp b i)
          | false ↦ ok (a, j)
        ])
      | false ↦ ok (a, j)
    ]

  -- One round: `tmp` sinks from cell `j` among the first `n` cells.
  unfoldable pub settle : ℕ → ℕ → ℕ → List ℕ → Run (List ℕ)
  settle n j tmp a = do (b, i) ← sink (n + 1) n tmp a j; write b i tmp

  -- The first phase, `k` counting the nodes that are left: nodes k - 1 down to 0.
  unfoldable pub build : ℕ → ℕ → List ℕ → Run (List ℕ)
  build zero n a = ok a
  build (suc k) n a = do tmp ← read a k; b ← settle n k tmp a; build k n b

  -- The second phase, for the cells from `k` down to 1.
  unfoldable pub drain : ℕ → List ℕ → Run (List ℕ)
  drain zero a = ok a
  drain (suc k) a = do
    tmp ← read a (suc k)
    root ← read a 0
    b ← write a (suc k) root
    c ← settle (suc k) 0 tmp b
    drain k c

  -- pl_hsort
  unfoldable pub hsort : Pl → Run Pl
  hsort l = do
    b ← build (l.count / 2) l.count l.cells
    c ← drain (l.count - 1) b
    ok (record l { cells = c; rc = lst_esuccess })
