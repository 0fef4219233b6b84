-- ===== src/Histories/Tests.antt =====
-- The history of group results on concrete values.
use endbot.Prelude.{◌≡◌, refl, true, false, [], ◌∷◌, List, ℕ, String, ok, leb, length, any}
use endbot.Histories.{GroupResult, Entry, same_key, is_of, count_of, save, get, result_of}
use endbot.Histories.Bounds.{save_all}
use endbot.Histories.Latest.{save-save_all}

abbrev first_result : GroupResult ℕ
first_result = record {
  identity = "r1";
  group_id = "g1";
  group_name = "Miners";
  target = "#Miners";
  operation = "stop";
  rows = 1 ∷ [];
}

abbrev second_result : GroupResult ℕ
second_result = record first_result { identity = "r2"; operation = "look" }

abbrev one_call : List (String × GroupResult ℕ)
one_call = ("console", first_result) ∷ []

second_new :
    any
      (λ f. same_key f (record { owner = "console"; result = second_result }))
      (save_all one_call [])
    ≡ false
unfolding save_all save endbot.Histories.pop_oldest endbot.Histories.trim
    endbot.Histories.drop_matching endbot.Histories.put count_of
second_new = refl

one_operation : result_of "r1" "g1" "Miners" "#Miners" "stop" (1 ∷ []) ≡ first_result
unfolding result_of endbot.Histories.first_chars endbot.Histories.one_line
one_operation = refl

save-save_all_example :
    (leb (length (save "console" second_result (save_all one_call []))) 128 ≡ true)
    × (leb (count_of (is_of "alice" "g1") (save "console" second_result (save_all one_call []))) 20
        ≡ true)
    × (get "console" "g1" 1 (save "console" second_result (save_all one_call []))
        ≡ ok second_result)
save-save_all_example = save-save_all one_call "console" second_result "alice" "g1" second_new
