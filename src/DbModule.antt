-- ===== src/DbModule.antt =====
-- `db.query` and `db.execute` of hbf/qjs/db_module.c. A double is its bit pattern, and an int64 too.
pub mod Bindings
use hbf.Base.{
  set_property, ℕ, suc, ◌+◌, Bool, true, false, not, ◌||◌, Option, none, some, List, [], ◌∷◌, ◌++◌,
  Bytes, bytes_eq, c_str, set, replicate, ltb, if◌then◌else◌,
}

-- What the tests on an element of the array of parameters distinguish; `other` is a Boolean, an
-- object or a symbol.
pub data JsParam : Type 0 where
  number : ℕ → JsParam
  string : Bytes → JsParam
  null : JsParam
  undefined : JsParam
  other : JsParam

-- What a parameter of a prepared statement is bound to.
pub data Bound : Type 0 where
  bound_double : ℕ → Bound
  bound_text : Bytes → Bound
  bound_null : Bound

-- One round of the loop; sqlite3_bind_text with the length -1 copies up to the first NUL, and an
-- index beyond the statement's parameters is refused, which the code does not look at.
unfoldable pub bind_param : ℕ → JsParam → List Bound → List Bound
bind_param i (number bits) params = set params i (bound_double bits)
bind_param i (string s) params = set params i (bound_text (c_str s))
bind_param i null params = set params i bound_null
bind_param i undefined params = set params i bound_null
bind_param i other params = params

unfoldable pub bind_params : ℕ → List JsParam → List Bound → List Bound
unfolding bind_param
bind_params i [] params = params
bind_params i (val ∷ vals) params = bind_params (i + 1) vals (bind_param i val params)

-- sqlite3_column_type with the value.
pub data Column : Type 0 where
  integer : ℕ → Column
  float : ℕ → Column
  text : Bytes → Column
  null_column : Column
  blob : Bytes → Column

-- What a property of a row's object is set to.
pub data JsColumn : Type 0 where
  js_int64 : ℕ → JsColumn
  js_float64 : ℕ → JsColumn
  js_string : Bytes → JsColumn
  js_null : JsColumn

unfoldable pub column_value : Column → JsColumn
column_value (integer n) = js_int64 n
column_value (float bits) = js_float64 bits
column_value (text s) = js_string (c_str s)
column_value null_column = js_null
column_value (blob bytes) = js_null

abbrev pub Object : Type 0
Object = List (Bytes × JsColumn)

-- The loop over the columns of a row, each with its name; the name `__proto__`, which would set the
-- prototype, is taken not to occur.
unfoldable pub row_object : List (Bytes × Column) → Object → Object
unfolding column_value set_property
row_object [] obj = obj
row_object ((col, value) ∷ columns) obj =
    row_object columns (set_property col (column_value value) obj)

-- How the stepping ends: SQLITE_DONE or an error.
pub data StepEnd : Type 0 where
  step_done : StepEnd
  step_error : StepEnd

-- The arguments and the answers: `argc`, the text of the first argument (`none` where
-- JS_ToCString fails), the second argument where it is an array, the number of parameters of the
-- prepared statement (`none` where it is not prepared), and for each binding of them the rows that
-- it steps to, how that ends, and what sqlite3_changes then gives.
pub record DbCalls : Type 0 where
  pub argc : ℕ
  pub sql : Option Bytes
  pub params : Option (List JsParam)
  pub prepared : Option ℕ
  pub rows : List Bound → List (List (Bytes × Column))
  pub ends : List Bound → StepEnd
  pub changes : List Bound → ℕ

-- What is held: the string of the SQL and the statement.
pub record DbHeld : Type 0 where
  pub sql : Bool
  pub stmt : Bool

abbrev pub none_held : DbHeld
none_held = record { sql = false; stmt = false }

pub data DbResult : Type 0 where
  type_error : DbResult
  internal_error : DbResult
  result_rows : List Object → DbResult
  result_changes : ℕ → DbResult

pub record DbRun : Type 0 where
  pub result : DbResult
  pub held : DbHeld

-- "Bind params", on a statement whose parameters are all NULL.
unfoldable pub bind : Option (List JsParam) → ℕ → List Bound
unfolding bind_params
bind none n = replicate n bound_null
bind (some vals) n = bind_params 0 vals (replicate n bound_null)

-- while (rc == SQLITE_ROW)
unfoldable pub collect : List (List (Bytes × Column)) → List Object → List Object
unfolding row_object
collect [] result = result
collect (row ∷ rows) result = collect rows (result ++ row_object row [] ∷ [])

-- From the call of sqlite3_step; what the last step gives is not looked at.
unfoldable pub query_rows : DbCalls → List Bound → DbHeld → DbRun
unfolding collect
query_rows calls bound h = record {
  result = result_rows (collect (calls.rows bound) []);
  held = record h { stmt = false; sql = false };
}

unfoldable pub js_db_query : DbCalls → DbRun
unfolding bind query_rows
js_db_query calls =
    if ltb calls.argc 1
    then (record { result = type_error; held = none_held })
    else elim calls.sql [
      | none ↦ record { result = type_error; held = none_held }
      | some sql ↦ elim calls.prepared [
        | none ↦ record {
          result = internal_error;
          held = record (record none_held { sql = true }) { sql = false };
        }
        | some n ↦
            query_rows calls (bind (if ltb 1 calls.argc then calls.params else none) n)
              (record none_held { sql = true; stmt = true })
      ]
    ]

-- From the call of sqlite3_step. A statement that gives a row is not stepped again.
unfoldable pub execute_step : DbCalls → List Bound → DbHeld → DbRun
execute_step calls bound h =
    let freed = record h { stmt = false; sql = false } in
    elim (calls.rows bound) [
      | row ∷ rows ↦ record { result = result_changes (calls.changes bound); held = freed }
      | [] ↦ elim (calls.ends bound) [
        | step_done ↦ record { result = result_changes (calls.changes bound); held = freed }
        | step_error ↦ record { result = internal_error; held = freed }
      ]
    ]

unfoldable pub js_db_execute : DbCalls → DbRun
unfolding bind execute_step
js_db_execute calls =
    if ltb calls.argc 1
    then (record { result = type_error; held = none_held })
    else elim calls.sql [
      | none ↦ record { result = type_error; held = none_held }
      | some sql ↦ elim calls.prepared [
        | none ↦ record {
          result = internal_error;
          held = record (record none_held { sql = true }) { sql = false };
        }
        | some n ↦
            execute_step calls (bind (if ltb 1 calls.argc then calls.params else none) n)
              (record none_held { sql = true; stmt = true })
      ]
    ]
