-- ===== src/Webhooks/Headers.antt =====
-- api/webhook_service.py: the headers of a request.
use text.Mathlib.Text.{◌==◌ as str_eq}
use text.Mathlib.TextEquality.{eq_iff}
use vlog.Prelude.{
  String, Bool, true, false, not, Option, none, some, List, [], ◌∷◌, ◌≡◌, refl, ap, ◌∙◌, keep_if,
  find_first, is_some, Bool-cases, inl, inr,
}
use vlog.Prelude.Dicts.{Dict, get, put, get-put_ne}

abbrev pub protected_headers : List String
protected_headers =
    "content-type" ∷ "content-length" ∷ "host" ∷ "user-agent" ∷ "x-vlog-event"
    ∷ "x-vlog-delivery-id" ∷ "x-vlog-timestamp" ∷ "x-vlog-signature" ∷ "x-vlog-test"
    ∷ "authorization" ∷ "cookie" ∷ "transfer-encoding" ∷ "connection" ∷ []

unfoldable pub own_headers : String → String → String → Dict String
own_headers event id timestamp =
    ("Content-Type", "application/json")
    ∷ ("User-Agent", "VLog-Webhook/1.0")
    ∷ ("X-VLog-Event", event)
    ∷ ("X-VLog-Delivery-Id", id)
    ∷ ("X-VLog-Timestamp", timestamp)
    ∷ []

unfoldable pub sign : Option String → Dict String → Dict String
sign none headers = headers
sign (some s) headers = put "X-VLog-Signature" s headers

-- `lower` stands for `str.lower`.
module _ (lower : String → String) where
  unfoldable pub is_protected : String → Bool
  is_protected n = is_some (find_first (λ p. str_eq p (lower n)) protected_headers)

  unfoldable pub filter_custom_headers : Dict String → Dict String
  unfolding is_protected
  filter_custom_headers custom = keep_if (λ h. not (is_protected h.0)) custom

  -- `headers.update(safe)`.
  unfoldable pub update : Dict String → Dict String → Dict String
  update headers [] = headers
  update headers ((n, v) ∷ rest) = update (put n v headers) rest

  -- The JSON in `webhooks.headers`: none or not an object, or an object.
  unfoldable pub add_custom : Option (Dict String) → Dict String → Dict String
  unfolding filter_custom_headers update
  add_custom none headers = headers
  add_custom (some custom) headers = update headers (filter_custom_headers custom)

  -- The headers of a delivery; `signature` is that of the body, if the webhook has a secret.
  unfoldable pub delivery_headers :
      String → String → String → Option String → Option (Dict String) → Dict String
  unfolding add_custom own_headers sign
  delivery_headers event id timestamp signature custom =
      add_custom custom (sign signature (own_headers event id timestamp))

  apart : (n m : String) → is_protected n ≡ true → is_protected m ≡ false → str_eq n m ≡ false
  apart n m p q = elim (Bool-cases (str_eq n m)) [
    | inl e ↦ let same : n ≡ m = (eq_iff n m).0 e in let both = ap is_protected same in cc
    | inr e ↦ e
  ]

  update-get :
      (n : String) (headers custom : Dict String)
      → is_protected n ≡ true
      → get n (update headers (filter_custom_headers custom)) ≡ get n headers
  unfolding update filter_custom_headers
  update-get n headers [] p = refl
  update-get n headers ((m, v) ∷ rest) p = elim (Bool-cases (is_protected m)) [
    | inl e ↦ rw (e, filter_custom_headers) (update-get n headers rest p)
    | inr e ↦
        rw (e, filter_custom_headers)
          (update-get n (put m v headers) rest p ∙ get-put_ne m n v headers (apart n m p e))
  ]

  add_custom-get :
      (n : String) (custom : Option (Dict String)) (headers : Dict String)
      → is_protected n ≡ true
      → get n (add_custom custom headers) ≡ get n headers
  unfolding add_custom
  add_custom-get n none headers p = refl
  add_custom-get n (some custom) headers p = update-get n headers custom p

  -- Under a name that is protected in lower case, the headers of a delivery hold the same, whatever the
  -- webhook's custom headers are, as without any: the service's own header, or none.
  pub delivery_headers-get :
      (n event id timestamp : String) (signature : Option String) (custom : Option (Dict String))
      → is_protected n ≡ true
      → get n (delivery_headers event id timestamp signature custom)
        ≡ get n (delivery_headers event id timestamp signature none)
  unfolding delivery_headers
  delivery_headers-get n event id timestamp signature custom p =
      add_custom-get n custom (sign signature (own_headers event id timestamp)) p
