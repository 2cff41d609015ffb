-- ===== src/DbModule/Bindings.antt =====
-- What the parameters of a statement are bound to.
use hbf.Base.{
  length-append, append_assoc, ℕ, zero, suc, ◌+◌, ◌-◌, ◌≤◌, ◌≡◌, refl, ◌∙◌, ap, sym, Option, none,
  some, List, [], ◌∷◌, ◌++◌, c_str, set, take, length, map, replicate, arith,
}
use hbf.DbModule.{
  JsParam, number, string, null, undefined, other, Bound, bound_double, bound_text, bound_null,
  bind_param, bind_params, bind,
}

-- What an element of the array stands for.
unfoldable pub bound_of : JsParam → Bound
bound_of (number bits) = bound_double bits
bound_of (string s) = bound_text (c_str s)
bound_of null = bound_null
bound_of undefined = bound_null
bound_of other = bound_null

set_end :
    (done rest : List Bound) (x v : Bound)
    → set (done ++ x ∷ rest) (length done) v ≡ (done ++ v ∷ []) ++ rest
set_end [] rest x v = refl
set_end (y ∷ done) rest x v = ap (◌∷◌ y) (set_end done rest x v)

set_past : (xs : List Bound) (i : ℕ) (v : Bound) → length xs ≤ i → set xs i v ≡ xs
set_past [] i v h = refl
set_past (x ∷ xs) zero v h = absurd (omega arith)
set_past (x ∷ xs) (suc i) v h = ap (◌∷◌ x) (set_past xs i v (omega arith))

bind_param-next :
    (done : List Bound) (val : JsParam) (n : ℕ)
    → bind_param (length done) val (done ++ replicate (suc n) bound_null)
      ≡ (done ++ bound_of val ∷ []) ++ replicate n bound_null
unfolding bind_param bound_of
bind_param-next done (number bits) n = set_end done _ bound_null _
bind_param-next done (string s) n = set_end done _ bound_null _
bind_param-next done null n = set_end done _ bound_null _
bind_param-next done undefined n = set_end done _ bound_null _
bind_param-next done other n = sym (append_assoc done (bound_null ∷ []) (replicate n bound_null))

bind_param_past :
    (i : ℕ) (val : JsParam) (xs : List Bound) → length xs ≤ i → bind_param i val xs ≡ xs
unfolding bind_param
bind_param_past i (number bits) xs h = set_past xs i _ h
bind_param_past i (string s) xs h = set_past xs i _ h
bind_param_past i null xs h = set_past xs i _ h
bind_param_past i undefined xs h = set_past xs i _ h
bind_param_past i other xs h = refl

bind_params_past :
    (i : ℕ) (vals : List JsParam) (xs : List Bound) → length xs ≤ i → bind_params i vals xs ≡ xs
unfolding bind_params
bind_params_past i [] xs h = refl
bind_params_past i (val ∷ vals) xs h =
    ap (bind_params (i + 1) vals) (bind_param_past i val xs h)
    ∙ bind_params_past (i + 1) vals xs (omega arith)

bind_params_lem :
    (done : List Bound) (vals : List JsParam) (n : ℕ)
    → bind_params (length done) vals (done ++ replicate n bound_null)
      ≡ done ++ (take n (map bound_of vals) ++ replicate (n - length vals) bound_null)
bind_params_lem done [] zero = unfold bind_params in refl
bind_params_lem done [] (suc n) =
    let same : suc n ≡ suc n - 0 = omega arith in
    unfold bind_params in ap (λ (k : ℕ). done ++ replicate k bound_null) same
bind_params_lem done (val ∷ vals) zero =
    let none_left : 0 ≡ 0 - length (val ∷ vals) = omega arith in
    bind_params_past (length done) (val ∷ vals) (done ++ []) (omega (arith, length-append done []))
    ∙ ap (λ (k : ℕ). done ++ replicate k bound_null) none_left
bind_params_lem done (val ∷ vals) (suc n) =
    step (bind_params_lem (done ++ bound_of val ∷ []) vals n)
  where
    step :
        bind_params
            (length (done ++ bound_of val ∷ []))
            vals
            ((done ++ bound_of val ∷ []) ++ replicate n bound_null)
          ≡ (done ++ bound_of val ∷ [])
            ++ (take n (map bound_of vals) ++ replicate (n - length vals) bound_null)
        → bind_params (length done) (val ∷ vals) (done ++ replicate (suc n) bound_null)
          ≡ done
            ++ (take (suc n) (map bound_of (val ∷ vals))
                ++ replicate (suc n - length (val ∷ vals)) bound_null)
    step ih =
        let longer : length done + 1 ≡ length (done ++ bound_of val ∷ []) =
          omega (arith, length-append done (bound_of val ∷ [])) in
        let left : n - length vals ≡ suc n - suc (length vals) = omega arith in
        unfold bind_params in
        (ap (bind_params (length done + 1) vals) (bind_param-next done val n)
          ∙ ap
              (λ (k : ℕ).
                bind_params k vals ((done ++ bound_of val ∷ []) ++ replicate n bound_null))
              longer
          ∙ ih
          ∙ append_assoc done (bound_of val ∷ []) _
          ∙ ap
              (λ (k : ℕ).
                done ++ bound_of val ∷ (take n (map bound_of vals) ++ replicate k bound_null))
              left)

-- The statement's parameters are bound to the array's elements in order, those beyond the array and
-- the elements that are neither numbers nor texts to NULL, and elements beyond the parameters are
-- left out; without an array all parameters are NULL.
pub bind_lem :
    (params : Option (List JsParam)) (n : ℕ)
    → bind params n ≡ (elim params [
      | none ↦ replicate n bound_null
      | some vals ↦ take n (map bound_of vals) ++ replicate (n - length vals) bound_null
    ])
unfolding bind
bind_lem none n = refl
bind_lem (some vals) n = bind_params_lem [] vals n
