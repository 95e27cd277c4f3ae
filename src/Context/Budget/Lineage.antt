-- ===== src/Context/Budget/Lineage.antt =====
-- How long the lineage of summaries grows (src/ueaf/context/token_budgeter.py).
use Prim.Native.Nat.{max}
use agent_ueaf.Common.{ℕ, ◌+◌, ◌≤◌, String, List, length-append, arith, ◌≡◌}
use agent_ueaf.Context.Compression.{depth, needs_rebuild, rebuild_from, add_record}
use agent_ueaf.Context.Budget.{Slot, TokenBudgeter, compress, item_tokens}

-- However often slots are compressed, the lineage stays as short as its limit, or has the two records
-- that a rebuilt one begins with; and the compressed slot costs the loss and eight tokens.
compress_bounds :
    (s : Slot) (input_refs : List String) (output_ref : String) (loss : ℕ) (b : TokenBudgeter)
    → depth b.lineage ≤ max 2 b.lineage.max_depth
    → let (t, c) = compress s input_refs output_ref loss b in
      (depth c.lineage ≤ max 2 c.lineage.max_depth)
      × (c.lineage.max_depth ≡ b.lineage.max_depth)
      × (item_tokens t.items ≡ loss + 8)
unfolding compress needs_rebuild rebuild_from add_record
compress_bounds s input_refs output_ref loss b h = grind (arith, length-append)
