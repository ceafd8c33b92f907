-- ===== src/Transform/Contexts.antt =====
-- What a filter sees of an event.
use webhook_relay_service.Transform.Filter.{
  add_fields, is_context_key, build_filter_context, fields_of, or_empty, set_default,
}
use webhook_relay_service.Prelude.{
  Option, Text, false, if◌then◌else◌, none, refl, some, text_eq, text_eq_refl, ◌≡◌, inr, codes,
  arith, inl, Option-cases, text_eq_iff, Bool-cases, ◌∙◌, true, ap,
}
use webhook_relay_service.Model.Json.{end, Fields, Value, field, get, put, dict}

abbrev pub or_first : Option Value → Option Value → Option Value
or_first (some v) _ = some v
or_first none second = second

get-put_other :
    (k j : Text) (v : Value) (fields : Fields)
    → text_eq k j ≡ false
    → get k (put j v fields) ≡ get k fields
unfolding get put
get-put_other k j v end h = simp h refl
get-put_other k j v (field i w fields) h =
    ground
      (arith, h, get-put_other k j v fields h, text_eq_iff j i, text_eq_iff k i, text_eq_iff k j)

get-put : (k : Text) (v : Value) (fields : Fields) → get k (put k v fields) ≡ some v
unfolding get put
get-put k v end = simp text_eq_refl refl
get-put k v (field i w fields) = ground (arith, get-put k v fields, text_eq_refl k)

set_default-get :
    (k key : Text) (value : Value) (context : Fields)
    → get k (set_default key value context)
      ≡ or_first (get k context) (if text_eq k key then some value else none)
set_default-get k key value context = elim (Bool-cases (text_eq k key)) [
  | inl same ↦
      let e : k ≡ key = (text_eq_iff k key).0 same in
      elim (Option-cases (get key context)) [
        | inl absent ↦ ground (arith, e, absent, get-put key value context, text_eq_refl key)
        | inr (v, old) ↦ ground (arith, e, old, text_eq_refl key)
      ]
  | inr differ ↦ elim (Option-cases (get key context)) [
    | inl absent ↦ ground (arith, absent, differ, get-put_other k key value context differ)
    | inr (v, old) ↦ ground (arith, old, differ)
  ]
]

same_reserved : (k key : Text) → text_eq k key ≡ true → is_context_key k ≡ is_context_key key
same_reserved k key same = ap is_context_key ((text_eq_iff k key).0 same)

-- A name keeps the first value that it has, whatever is added after.
get-add :
    (k : Text) (fields context : Fields)
    → get k (add_fields fields context)
      ≡ or_first (get k context) (if is_context_key k then none else get k fields)
unfolding get
get-add k end context = ground arith
get-add k (field key value rest) context = elim (Bool-cases (is_context_key key)) [
  | inl reserved ↦ ground (arith, reserved, get-add k rest context, same_reserved k key)
  | inr open_name ↦ ground (
    arith,
    open_name,
    get-add k rest (set_default key value context),
    set_default-get k key value context,
    same_reserved k key,
  )
]

-- A filter sees, under "body", the body or an empty dictionary, under "headers" the headers, and under
-- any other name the field of that name of a body that is a dictionary.
pub build_context-get :
    (body : Value) (headers : Fields) (k : Text)
    → get k (build_filter_context body headers) ≡ (
        if text_eq k (codes "body")
        then some (or_empty body)
        else if text_eq k (codes "headers")
        then some (dict headers)
        else get k (fields_of body))
unfolding build_filter_context get
build_context-get body headers k =
    get-add k (fields_of body)
      (field (codes "body") (or_empty body) (field (codes "headers") (dict headers) end))
    ∙ ground arith
