-- ===== src/Context/Compression.antt =====
-- The lineage of summaries (src/ueaf/context/compression.py). SHA-256 is not code of the repository:
-- it is a parameter.
use Prim.Native.String as Text
use agent_ueaf.Common.{ℕ, String, Bool, List, [], ◌∷◌, ◌++◌, length, leb, Decimal.decimal}

pub record CompressionRecord : Type 0 where
  pub summary_ref : String
  pub input_refs : List String
  pub output_ref : String
  pub rule_version : String
  pub loss : ℕ
  pub omitted_refs : List String

-- `"|".join(texts)`
abbrev piped : List String → String
piped [] = ""
piped (t ∷ []) = t
piped (t ∷ u ∷ ts) = Text.◌++◌ t (Text.◌++◌ "|" (piped (u ∷ ts)))

-- `CompressionRecord.lineage_digest`
unfoldable pub lineage_digest : (String → String) → CompressionRecord → String
lineage_digest sha256_hex r =
    sha256_hex (
      piped (r.summary_ref ∷ (r.input_refs ++ r.output_ref ∷ r.rule_version ∷ decimal r.loss ∷ [])))

pub record CompressionLineage : Type 0 where
  pub max_depth : ℕ
  pub records : List CompressionRecord

-- `CompressionLineage.record`
unfoldable pub add_record : CompressionRecord → CompressionLineage → CompressionLineage
add_record r l = record l { records = l.records ++ r ∷ [] }

abbrev pub depth : CompressionLineage → ℕ
depth l = length l.records

unfoldable pub needs_rebuild : CompressionLineage → Bool
needs_rebuild l = leb l.max_depth (depth l)

unfoldable pub rebuild_from : List String → CompressionLineage → CompressionLineage
rebuild_from authoritative_refs l =
    let rebuilt : CompressionRecord = record {
      summary_ref = "summary:rebuilt";
      input_refs = authoritative_refs;
      output_ref = "summary:rebuilt";
      rule_version = "1.0.0";
      loss = 0;
      omitted_refs = [];
    } in
    record l { records = rebuilt ∷ [] }
