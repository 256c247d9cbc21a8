-- ===== src/LlmGateway/Keying/Params.antt =====
-- The parameters of a key: what `_normalize_params` keeps.
use dev_harness.Base.{
  ◌≡◌, refl, sym, ◌∙◌, ap, ◌↔◌, Bool, true, ◌||◌, Option, none, some, List, [], ◌∷◌, String, any,
  str_eq, eq_iff, arith, if◌then◌else◌,
}
use dev_harness.Base.Dict
use dev_harness.Base.Dict.{Dict}
use dev_harness.Base.Json.{Json, Fields, object, find}
use dev_harness.LlmGateway.Keying.{picked, with_param, normalize_params, param_fields}

find-with_param :
    (k j : String) (o x : Option Json) (fs : Fields) (later : Bool)
    → find k fs ≡ (if later then x else none)
    → (str_eq j k ≡ true → x ≡ o)
    → find k (with_param j o fs) ≡ (if str_eq k j || later then x else none)
find-with_param k j none x fs later rest same = ground (arith, rest, same, eq_iff j k, eq_iff k j)
find-with_param k j (some v) x fs later rest same =
    ground (arith, rest, same, eq_iff j k, eq_iff k j)

find-picked :
    (k : String) (ks : List String) (body : Dict Json)
    → find k (picked ks body) ≡ (if any (str_eq k) ks then Dict.lookup k body else none)
unfolding picked
find-picked k [] body = refl
find-picked k (j ∷ ks) body =
    find-with_param k j (Dict.lookup j body) (Dict.lookup k body) (picked ks body)
      (any (str_eq k) ks) (find-picked k ks body)
      (λ e. ap (λ i. Dict.lookup i body) (sym ((eq_iff j k).0 e)))

picked-ext :
    (ks : List String) (b b' : Dict Json)
    → ((k : String) → any (str_eq k) ks ≡ true → Dict.lookup k b ≡ Dict.lookup k b')
    → picked ks b ≡ picked ks b'
unfolding picked
picked-ext [] b b' same = refl
picked-ext (j ∷ ks) b b' same =
    let here : Dict.lookup j b ≡ Dict.lookup j b' = same j (ground (arith, eq_iff j j)) in
    let rest : picked ks b ≡ picked ks b' =
      picked-ext ks b b' (λ k h. same k (ground (arith, h))) in
    rw (here, rest) refl

-- Two bodies ask for the same parameters: each is absent in both, or has the same value.
pub SameParams : Dict Json → Dict Json → Type 0
SameParams b b' =
    (k : String) → any (str_eq k) param_fields ≡ true → Dict.lookup k b ≡ Dict.lookup k b'

pub normalize_params-SameParams :
    (b b' : Dict Json) → (normalize_params b ≡ normalize_params b') ↔ SameParams b b'
unfolding SameParams
normalize_params-SameParams b b' = (
  λ h. λ k here.
      let same : picked param_fields b ≡ picked param_fields b' = cc in
      let first : find k (picked param_fields b) ≡ Dict.lookup k b =
        find-picked k param_fields b ∙ ground (arith, here) in
      let second : find k (picked param_fields b') ≡ Dict.lookup k b' =
        find-picked k param_fields b' ∙ ground (arith, here) in
      sym first ∙ ap (find k) same ∙ second,
  λ h. ap object (picked-ext param_fields b b' h),
)
