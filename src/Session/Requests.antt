-- ===== src/Session/Requests.antt =====
-- web/src/lib/api.ts: what `request` sends, and what becomes of the answer.
use restic_ui.Base.{ℕ, Bool, true, false, Option, none, some, if◌then◌else◌, is_some}
use restic_ui.Base.Text.{Text, codes, is_empty}

pub data Method : Type 0 where
  get post put delete : Method

-- `method !== "GET" && method !== "HEAD"`, of the methods that `api` offers.
abbrev pub is_mutating : Method → Bool
is_mutating Method.get = false
is_mutating _ = true

module _ {ℓ} (Body : Type ℓ) where
  -- What `fetch` is given; the body stands for its JSON text.
  pub record Sent : Type ℓ where
    pub method : Method
    pub path : Text
    pub content_type : Option Text
    pub csrf_header : Option Text
    pub body : Option Body

-- How an answer reads: `res.json()` of an error is no JSON, has no `error`, or has one.
pub data ErrorBody : Type 0 where
  not_json no_error : ErrorBody
  with_error : Text → ErrorBody

module _ {ℓ} (A : Type ℓ) where
  pub data Reply : Type ℓ where
    ok : A → Reply
    refused : (status : ℕ) (status_text : Text) → ErrorBody → Reply
    -- The network failed, or the JSON of a good answer cannot be parsed.
    broken : Reply

  pub data Result : Type ℓ where
    value : A → Result
    api_error : (status : ℕ) → Text → Result
    thrown : Result

module _ {ℓ} {Body : Type ℓ} where
  unfoldable pub send : (token : Text) → Method → Text → Option Body → Sent Body
  send token method path body = record {
    method = method;
    path = path;
    content_type = if is_some body then some (codes "application/json") else none;
    csrf_header = if is_mutating method then some token else none;
    body = body;
  }

abbrev pub error_message : Text → ErrorBody → Text
error_message status_text not_json = status_text
error_message status_text no_error = status_text
error_message status_text (with_error e) = if is_empty e then status_text else e

module _ {ℓ} {A : Type ℓ} where
  unfoldable pub receive : Reply A → Result A
  receive (ok a) = value a
  receive (refused status status_text body) = api_error status (error_message status_text body)
  receive broken = thrown
