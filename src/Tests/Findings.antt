-- ===== src/Tests/Findings.antt =====
-- Findings: what is published, what is summed up, what an answer that was cut off still gives.
use mathlib.Core.List.{List, [], ◌∷◌, ◌++◌}
use dovi_ai_server.Base.{
  strip, ◌≡◌, refl, true, none, some, nat_eq, list_beq, list_eq, triple_eq, keep, any, contains,
  sort, first_of_each, Text, codes,
}
use dovi_ai_server.Review.Schema.{critical, major, minor, modified, ReviewComment, ChangedFile}
use dovi_ai_server.Review.Filter.{FilterOptions, filter_reviews, is_kept, is_inline}
use dovi_ai_server.Review.Filter.Inline.{
  IsPublishable, Placed, filter_reviews-IsPublishable, filter_reviews-Placed,
}
use dovi_ai_server.Llm.Partial.{
  Decoders, PartialRecoveryResult, parse_partial_review_output, extract_array_item_strings,
}
use dovi_ai_server.Llm.Partial.Scan.{
  string_end, string_char, string_escape, nothing, plain, string, array, IsObject, IsBegun,
}
use dovi_ai_server.Llm.Partial.Items.{array_text, extract_array_item_strings_exact}
use dovi_ai_server.Llm.Partial.Recovered.{IsRecovery, parse_partial-IsRecovery}

abbrev options : FilterOptions
options = record { min_confidence = 5; max_comments = 2; max_per_file = 1; require_evidence = true }

abbrev leak : ReviewComment
leak = record {
  severity = major;
  confidence = 7;
  file_path = codes "a.py";
  line = 2;
  title = codes "leak";
  message = codes "a file is not closed";
  evidence = codes "open" ∷ [];
  suggested_fix = none;
}

abbrev crash : ReviewComment
crash = record leak { severity = critical; line = 1; title = codes "crash" }

abbrev nit : ReviewComment
nit = record leak { severity = minor; title = codes "nit" }

abbrev three : List ReviewComment
three = leak ∷ nit ∷ crash ∷ []

filter_reviews_value : filter_reviews options three ≡ crash ∷ []
unfolding filter_reviews first_of_each sort keep is_inline any strip list_beq
filter_reviews_value = refl

filter_reviews-IsPublishable_example : IsPublishable options (filter_reviews options three)
filter_reviews-IsPublishable_example = filter_reviews-IsPublishable options three

filter_reviews-Placed_example :
    Placed options (filter_reviews options three) (codes "a.py", 2, codes "leak")
unfolding contains is_kept keep any strip is_inline list_beq
filter_reviews-Placed_example =
    filter_reviews-Placed options three (codes "a.py", 2, codes "leak") refl

abbrev changed : List ChangedFile
changed =
    record {
      file_path = codes "a.py";
      status = modified;
      patch = codes "@@ -1,1 +1,2 @@\n x\n+y";
      content = none;
      previous_content = none;
    }
    ∷ []

abbrev items : List (Text × Text)
items = ([], codes "{\"a\":[1]}") ∷ (codes ", ", codes "{\"\\\"}\"}") ∷ []

first_item : IsObject (codes "{\"a\":[1]}")
first_item = (
  codes "\"a\":[1]",
  refl,
  string (codes "a\"") (codes ":[1]") (string_char b'a' (codes "\"") refl refl string_end) (
      plain b':' (codes "[1]") refl refl refl refl refl
        (array (codes "1") [] (plain b'1' [] refl refl refl refl refl nothing) nothing)),
)

second_item : IsObject (codes "{\"\\\"}\"}")
second_item = (
  codes "\"\\\"}\"",
  refl,
  string (codes "\\\"}\"") []
      (string_escape b'"' (codes "}\"") (string_char b'}' (codes "\"") refl refl string_end))
      nothing,
)

begun : IsBegun (codes "{\"b\"")
begun = (
  b'}',
  [],
  (
    codes "\"b\"",
    refl,
    string (codes "b\"") [] (string_char b'b' (codes "\"") refl refl string_end) nothing,
  ),
)

extract_array_item_strings_exact_example :
    extract_array_item_strings (array_text items (codes ", " ++ codes "{\"b\""))
    ≡ codes "{\"a\":[1]}" ∷ codes "{\"\\\"}\"}" ∷ []
extract_array_item_strings_exact_example =
    extract_array_item_strings_exact items (codes ", ") (codes "{\"b\"")
      ((tt, first_item), ((((refl, refl, refl), ((refl, refl, refl), tt)), second_item), tt))
      ((refl, refl, refl), ((refl, refl, refl), tt)) begun

-- Every closed string and every object decodes.
abbrev decoders : Decoders
decoders = record { decode_string = λ t. some t; decode_review = λ t. some leak }

abbrev cut_answer : Text
cut_answer = codes "{\"summary\":\"s\",\"reviews\":[{},{},{\"b\""

abbrev recovery : PartialRecoveryResult
recovery = record {
  output = record {
    summary = codes "\"s\"\n\n※ 모델 출력이 중간에 잘려 일부 finding만 복구했습니다.";
    reviews = leak ∷ [];
  };
  duplicates_removed = 1;
}

parse_partial-IsRecovery_example : IsRecovery decoders cut_answer recovery
unfolding parse_partial_review_output list_beq
parse_partial-IsRecovery_example = parse_partial-IsRecovery decoders cut_answer recovery refl
