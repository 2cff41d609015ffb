-- ===== src/Tests/Database.antt =====
-- The db module and the request object on concrete calls.
use hbf.Base.{
  bytes_eq, c_str, ◌≡◌, refl, some, List, [], ◌∷◌, ◌++◌, ◌-◌, codes, map, take, replicate,
}
use hbf.DbModule.{
  JsParam, number, string, other, bound_double, bound_text, bound_null, DbCalls, step_error,
  integer, text, js_int64, js_string, bind, js_db_query, result_rows,
}
use hbf.DbModule.Bindings.{bound_of, bind_lem}

abbrev three_values : List JsParam
three_values = number 7 ∷ other ∷ string (codes "x") ∷ []

bind_lem_example :
    bind (some three_values) 2 ≡ take 2 (map bound_of three_values) ++ replicate (2 - 3) bound_null
bind_lem_example = bind_lem (some three_values) 2

bind_three :
    bind (some three_values) 4
    ≡ bound_double 7 ∷ bound_null ∷ bound_text (codes "x") ∷ bound_null ∷ []
unfolding bind c_str
bind_three = refl

-- A query with one row, whose stepping then fails.
abbrev failing_query : DbCalls
failing_query = record {
  argc = 2;
  sql = some (codes "SELECT");
  params = some three_values;
  prepared = some 1;
  rows = λ bound. ((codes "id", integer 5) ∷ (codes "name", text (codes "n")) ∷ []) ∷ [];
  ends = λ bound. step_error;
  changes = λ bound. 0;
}

failing_query_rows :
    (js_db_query failing_query).result
    ≡ result_rows (((codes "id", js_int64 5) ∷ (codes "name", js_string (codes "n")) ∷ []) ∷ [])
unfolding js_db_query bytes_eq c_str
failing_query_rows = refl
