-- ===== src/Github/Fetch/Drained.antt =====
-- A connection with finitely many pages is drained, whatever their number.
use mathlib.Core.List.{append_assoc, append-nil}
use j.Prelude.{
  ℕ, zero, suc, ◌≤◌, ◌≡◌, refl, ap, ◌∙◌, true, false, Text, List, [], ◌++◌, Result, ok, arith,
}
use j.Github.Fetch.{PageInfo, Page, fetch_paged}

module _ {N : Type 0} where
  -- What stands behind a page: nothing, or the next page's nodes and what stands behind that.
  pub data Behind (server : Text → Result Text (Page N)) : PageInfo → List N → ℕ → Type 0 where
    no_more : (info : PageInfo) → info.has_next_page ≡ false → Behind server info [] 0
    one_more :
        (info next : PageInfo) (nodes rest : List N) (n : ℕ)
        → info.has_next_page ≡ true
        → server info.end_cursor ≡ ok (next, nodes)
        → Behind server next rest n
        → Behind server info (nodes ++ rest) (suc n)

  -- fetchPaged returns: with fuel for the pages that are there, it ends with all of their nodes
  -- behind those of the first page, in order, none lost and none added.
  pub fetch_paged_lem :
      (server : Text → Result Text (Page N)) (out : List N) (fuel : ℕ) {info : PageInfo}
      {rest : List N} {n : ℕ}
      → Behind server info rest n
      → n ≤ fuel
      → fetch_paged fuel server info out ≡ ok (out ++ rest)
  unfolding fetch_paged
  fetch_paged_lem server out zero (no_more info e) h = rw (e, append-nil) refl
  fetch_paged_lem server out (suc fuel) (no_more info e) h = rw (e, append-nil) refl
  fetch_paged_lem server out zero (one_more info next nodes rest n e s b) h = absurd (omega arith)
  fetch_paged_lem server out (suc fuel) (one_more info next nodes rest n e s b) h =
      rw (e, s)
        (fetch_paged_lem server (out ++ nodes) fuel b (omega arith)
          ∙ ap ok (append_assoc out nodes rest))
