-- ===== src/NetProfile/Tests.antt =====
-- Profiles at concrete inputs.
use dtmc_base.Common.{
  take, ℕ, ◌+◌, ◌≡◌, refl, List, [], ◌∷◌, ◌++◌, none, some, ok, err, fail, true, get_elem?,
  replicate, arith, if◌then◌else◌, leb,
}
use dtmc_base.Manifold.{CString}
use dtmc_base.Packing.{encode_all}
use dtmc_base.Packing.Samples.{fields, fields-laws}
use dtmc_base.NetProfile.{
  scan_token, next_token_nl, NetProfile, empty, ConcatFormat, ConcatFormatLaws, pack, unpack,
  pack_length, get_entry,
}
use dtmc_base.NetProfile.Entries.{add_all, get_entry-add_all}
use dtmc_base.NetProfile.Text.{
  to_string, trim, append_list_line, append_tokens, buf_append, append_if_unused,
}
use dtmc_base.NetProfile.Report.{report, or_empty, to_string-eq-report}
use dtmc_base.NetProfile.Wire.{filled, unpack-pack, pack_exact}

abbrev concat_format : ConcatFormat
concat_format none separator s = some s
concat_format (some t) separator s = some (t ++ (separator ++ s))

abbrev concat_format-laws : ConcatFormatLaws concat_format
concat_format-laws = record { begins = λ separator s. refl; continues = λ t separator s. refl }

abbrev entries : List CString
entries = (97 ∷ 98 ∷ []) ∷ (99 ∷ []) ∷ []

get_entry-add_all_example :
    (get_entry (λ n. true) 0 (add_all concat_format none entries) 1).0 ≡ get_elem? entries 1
get_entry-add_all_example =
    get_entry-add_all concat_format-laws (λ n. true) 0 entries 1 (λ n. refl) (omega arith)
      (omega arith)

-- Two names, and a role.
abbrev node : NetProfile
node = record empty { name_list = some (97 ∷ 98 ∷ 10 ∷ 99 ∷ []); role_list = some (100 ∷ []) }

abbrev output : List ℕ
output = replicate 20 7

unpack-pack_example :
    ((pack fields node output 2 20).0 ≡ ok (pack_length node))
    × (unpack fields empty (pack fields node output 2 20).1 2 20
        ≡ (ok (pack_length node), filled node))
unfolding encode_all
unpack-pack_example =
    unpack-pack fields-laws node output 2 20 (omega arith) (omega arith) (omega arith) (omega arith)
      empty (omega arith)

-- 12 bytes do not fit behind offset 2 of 13.
pack_exact_example :
    (pack fields node output 2 13).0
    ≡ (if leb (2 + pack_length node) 13 then ok (pack_length node) else err fail)
unfolding encode_all
pack_exact_example =
    pack_exact fields-laws node output 2 13 (omega arith) (omega arith) (omega arith) (omega arith)
      (omega arith)

-- The text of the profile, cut off after 20 bytes.
to_string-eq-report_example : to_string node 21 ≡ some (trim (take 20 (or_empty (report node))))
to_string-eq-report_example = to_string-eq-report node 20

-- "    names: ab, c", a newline and "   ".
to_string-node :
    to_string node 21
    ≡ some (
        32 ∷ 32 ∷ 32 ∷ 32 ∷ 110 ∷ 97 ∷ 109 ∷ 101 ∷ 115 ∷ 58 ∷ 32 ∷ 97 ∷ 98 ∷ 44 ∷ 32 ∷ 99 ∷ 10 ∷ 32
        ∷ 32 ∷ 32 ∷ [])
unfolding to_string append_list_line append_tokens buf_append next_token_nl scan_token
    append_if_unused trim
to_string-node = refl
