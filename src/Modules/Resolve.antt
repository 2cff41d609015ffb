-- ===== src/Modules/Resolve.antt =====
-- Which module an import names, and what is loaded for it.
use hbf.Base.{
  ℕ, ◌≡◌, ◌≢◌, refl, ◌∙◌, ap, Bool, true, Option, none, some, [], ◌∷◌, ◌++◌, Bytes, IsText, All,
  c_str, c_str_text, bytes_eq_refl, length, ltb, ◌==◌, if◌then◌else◌, length-append, arith,
}
use hbf.Overlay.Schema.{Db, Version}
use hbf.Overlay.Write.{WriteCalls, done, overlay_fs_write}
use hbf.Overlay.Read.{select_latest}
use hbf.Overlay.History.{IsConsistent}
use hbf.Overlay.Effects.{IsWritten}
use hbf.Overlay.ReadBack.{written, written_lem, select_latest-eq-select_newest}
use hbf.Modules.{
  SourceCalls, hbf_qjs_get_module_source, directory, js_strdup, join_path, hbf_qjs_module_normalize,
  hbf_qjs_module_loader,
}

directory-none : (file : Bytes) → All (λ c. c ≢ 47) file → directory file ≡ none
unfolding directory
directory-none [] h = refl
directory-none (c ∷ cs) (h, hs) = ground (arith, directory-none cs hs)

directory-cons :
    (c : ℕ) (cs : Bytes)
    → directory (c ∷ cs) ≡ (elim (directory cs) [
      | some dir ↦ some (c ∷ dir)
      | none ↦ if c == 47 then some [] else none
    ])
unfolding directory
directory-cons c cs = refl

directory-append :
    (dir file : Bytes) → All (λ c. c ≢ 47) file → directory (dir ++ 47 ∷ file) ≡ some dir
directory-append [] file h = directory-cons 47 file ∙ rw (directory-none file h) refl
directory-append (c ∷ dir) file h =
    directory-cons c (dir ++ 47 ∷ file) ∙ rw (directory-append dir file h) refl

normalize_in :
    (succeeds : Bool) (base rel dir : Bytes)
    → directory base ≡ some dir
    → hbf_qjs_module_normalize succeeds (some base) (46 ∷ 47 ∷ rel) ≡ join_path succeeds dir rel
unfolding hbf_qjs_module_normalize
normalize_in succeeds base rel dir e = ap choose e
  where
    choose : Option Bytes → Option Bytes
    choose none = js_strdup succeeds rel
    choose (some d) = join_path succeeds d rel

-- A module "./rel" that a module of the directory `dir` imports is `dir/rel` where that is shorter
-- than the buffer of 512 characters, and is refused otherwise, whatever slashes stand in `dir` and
-- in `rel`.
pub hbf_qjs_module_normalize_lem :
    (dir file rel : Bytes)
    → All (λ c. c ≢ 47) file
    → hbf_qjs_module_normalize true (some (dir ++ 47 ∷ file)) (46 ∷ 47 ∷ rel)
      ≡ (if ltb (length (dir ++ 47 ∷ rel)) 512 then some (dir ++ 47 ∷ rel) else none)
hbf_qjs_module_normalize_lem dir file rel h =
    normalize_in true (dir ++ 47 ∷ file) rel dir (directory-append dir file h) ∙ joined
  where
    joined :
        join_path true dir rel
        ≡ (if ltb (length (dir ++ 47 ∷ rel)) 512 then some (dir ++ 47 ∷ rel) else none)
    joined = unfold join_path in ground (arith, length-append dir (47 ∷ rel))

-- The runs in which SQLite and the allocation succeed.
abbrev pub every_source : SourceCalls
every_source = record { prepare = true; bind = true; step = true; text = true; strdup = true }

module_source :
    (db : Db) (name : Bytes) (v : Version)
    → select_latest name db ≡ some v
    → hbf_qjs_get_module_source every_source (some db) name ≡ some (c_str v.content)
unfolding hbf_qjs_get_module_source
module_source db name v e = ap choose e
  where
    choose : Option Version → Option Bytes
    choose none = none
    choose (some w) = some (c_str w.content)

load_source :
    (compiles : Bytes → Bool) (db : Db) (name src : Bytes)
    → hbf_qjs_get_module_source every_source (some db) name ≡ some src
    → compiles src ≡ true
    → hbf_qjs_module_loader every_source compiles (some db) name ≡ some src
unfolding hbf_qjs_module_loader
load_source compiles db name src e ok = ap choose e ∙ rw ok refl
  where
    choose : Option Bytes → Option Bytes
    choose none = none
    choose (some s) = if compiles s then some s else none

-- After a completed write of a text that compiles, importing its path loads exactly the text.
pub hbf_qjs_module_loader-overlay_fs_write :
    (calls : WriteCalls) (now : ℕ) (db db' : Db) (path : Bytes) (buffer : Option Bytes) (size : ℕ)
    (compiles : Bytes → Bool)
    → IsConsistent db
    → overlay_fs_write calls now (some db) (some path) buffer size ≡ done db'
    → IsText (written buffer size)
    → compiles (written buffer size) ≡ true
    → hbf_qjs_module_loader every_source compiles (some db') path ≡ some (written buffer size)
hbf_qjs_module_loader-overlay_fs_write calls now db db' path buffer size compiles h returns text
      ok =
    load_source compiles db' path (written buffer size)
      (module_source db' path w.row newest
        ∙ ap some (ap c_str w.with_content ∙ c_str_text (written buffer size) text))
      ok
  where
    w : IsWritten path (written buffer size) db db'
    w = written_lem calls now db path buffer size h returns

    newest : select_latest path db' ≡ some w.row
    newest =
        select_latest-eq-select_newest path db' w.consistent
        ∙ (rw (bytes_eq_refl path) at (w.newest path))
