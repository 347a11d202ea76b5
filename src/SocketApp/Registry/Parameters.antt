-- ===== src/SocketApp/Registry/Parameters.antt =====
-- What the parameter helpers of the registry guarantee of the values they return.
use mcp_log_server.Prelude.{
  All, Bool, List, String, [], arith, eq_iff, false, if◌then◌else◌, refl, subst, true, ◌∷◌, ◌≡◌,
  ◌≢◌,
}
use mcp_log_server.Prelude.Json.{Fields, Json, arr, cons, get_or_null, items, nil, null, str}
use mcp_log_server.Prelude.Result.{Result, err, ok, ok-injective, ◌>>=◌}
use mcp_log_server.SocketApp.Registry.{
  ProtocolError, as_list_item, as_required_string, as_required_string_list, non_empty_strings,
  required_string, required_string_list,
}

-- `P` holds of the value, where the request is accepted.
pub record Yields {ℓ κ} {A : Type ℓ} (P : A → Type κ) (m : Result ProtocolError A)
    : Type (ℓ ⊔ κ) where
  pub at : (a : A) → m ≡ ok a → P a

module _ {ℓ κ} {A : Type ℓ} {P : A → Type κ} where
  pub Yields-if :
      (b : Bool) (x y : Result ProtocolError A)
      → Yields P x
      → Yields P y
      → Yields P (if b then x else y)
  Yields-if true x y p q = p
  Yields-if false x y p q = q

  pub Yields-bind {μ} :
      {B : Type μ} (m : Result ProtocolError B) (f : B → Result ProtocolError A)
      → ((b : B) → m ≡ ok b → Yields P (f b))
      → Yields P (m >>= f)
  Yields-bind (ok b) f h = h b refl
  Yields-bind (err e) f h = record { at = λ a q. cc }

  pub Yields-ok : (a : A) → P a → Yields P (ok a)
  Yields-ok a p = record { at = λ b e. subst P (ok-injective refl e) p }

  pub Yields-err : (e : ProtocolError) → Yields P (err e)
  Yields-err e = record { at = λ a q. cc }

abbrev pub NotEmpty : String → Type 0
NotEmpty s = s ≢ ""

as_required_string-ne :
    (key : String) (j : Json) (s : String) → as_required_string key j ≡ ok s → NotEmpty s
unfolding as_required_string
as_required_string-ne key (str t) s h = ground (arith, eq_iff t "", eq_iff s "")
as_required_string-ne key null s h = cc
as_required_string-ne key _ s h = cc

pub required_string-ne :
    (params : Fields) (key : String) (s : String) → required_string params key ≡ ok s → NotEmpty s
unfolding required_string
required_string-ne params key s h = as_required_string-ne key (get_or_null params key) s h

as_list_item-ne : (key : String) (j : Json) (s : String) → as_list_item key j ≡ ok s → NotEmpty s
unfolding as_list_item
as_list_item-ne key (str t) s h = ground (arith, eq_iff t "", eq_iff s "")
as_list_item-ne key null s h = cc
as_list_item-ne key _ s h = cc

non_empty_strings-All :
    (key : String) (js : List Json) → Yields (All NotEmpty) (non_empty_strings key js)
unfolding non_empty_strings
non_empty_strings-All key [] = Yields-ok [] tt
non_empty_strings-All key (j ∷ rest) = Yields-bind (as_list_item key j) _ λ s e.
    Yields-bind (non_empty_strings key rest) _ λ tail h.
      Yields-ok (s ∷ tail) (as_list_item-ne key j s e, (non_empty_strings-All key rest).at tail h)

-- A command: at least one word, and no empty word.
abbrev pub IsCommand : List String → Type 0
IsCommand words = (words ≢ []) × All NotEmpty words

non_empty_strings-ne :
    (key : String) (j : Json) (js : List Json)
    → Yields (λ words. words ≢ []) (non_empty_strings key (j ∷ js))
unfolding non_empty_strings
non_empty_strings-ne key j js =
    Yields-bind (as_list_item key j) _
      λ s _. Yields-bind (non_empty_strings key js) _ λ tail _. Yields-ok (s ∷ tail) (λ e. cc)

as_required_string_list-IsCommand :
    (key : String) (j : Json) (words : List String)
    → as_required_string_list key j ≡ ok words
    → IsCommand words
unfolding as_required_string_list
as_required_string_list-IsCommand key (arr nil) words h = cc
as_required_string_list-IsCommand key (arr (cons j rest)) words h = (
  (non_empty_strings-ne key j (items rest)).at words h,
  (non_empty_strings-All key (j ∷ items rest)).at words h,
)
as_required_string_list-IsCommand key null words h = cc
as_required_string_list-IsCommand key _ words h = cc

pub required_string_list-IsCommand :
    (params : Fields) (key : String) (words : List String)
    → required_string_list params key ≡ ok words
    → IsCommand words
unfolding required_string_list
required_string_list-IsCommand params key words h =
    as_required_string_list-IsCommand key (get_or_null params key) words h
