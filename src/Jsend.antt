-- ===== src/Jsend.antt =====
-- jobserv/jsend.py: the envelope of the API's replies, and pagination.
-- Python's `int` on the query's arguments is a parameter (of the numbers that are not negative).
-- `query.limit(n).offset(k)` is the n rows after the first k.
pub mod Pages
mod Samples
use jobserv.Prelude.{
  ℕ, zero, suc, ◌+◌, ◌-◌, ◌*◌, ◌/◌, String, Bool, true, false, ◌&&◌, Option, none, some, List, [],
  ◌∷◌, map, ltb, leb, if◌then◌else◌, take, drop, length,
}

pub data JsendStatus : Type 0 where
  success fail error : JsendStatus

pub status_str : ℕ → JsendStatus
status_str status_code =
    if leb 200 status_code && ltb status_code 300
    then success
    else if leb 400 status_code && ltb status_code 400
    then fail
    else error

pub record Page (A : Type 0) : Type 0 where
  pub limit : ℕ
  pub page : ℕ
  pub pages : ℕ
  pub total : ℕ
  pub items : List A
  -- the `page` and `limit` of the link to the next page
  pub next : Option (ℕ × ℕ)

pub data Reply (A : Type 0) : Type 0 where
  ok : Page A → Reply A
  bad_request : String → Reply A
  zero_division : Reply A

-- `int(request.args.get(name, default))`
int_arg : (String → Option ℕ) → Option String → ℕ → Option ℕ
int_arg int none default = some default
int_arg int (some text) default = int text

-- `ceil(total / limit)`
ceil_div : ℕ → ℕ → ℕ
ceil_div total limit = (total + (limit - 1)) / limit

module _ {A B : Type 0} where
  pub page_of : ℕ → ℕ → List A → (A → B) → Page B
  unfolding ceil_div
  page_of limit page query cb_func =
      let total = length query in
      let pages = ceil_div total limit in
      let next_page = page + 1 in
      record {
        limit = limit;
        page = page;
        pages = pages;
        total = total;
        items = map cb_func (take limit (drop (page * limit) query));
        next = if ltb next_page pages then some (next_page, limit) else none;
      }

  respond : ℕ → ℕ → List A → (A → B) → Reply B
  unfolding page_of
  respond zero page query cb_func = zero_division
  respond (suc n) page query cb_func = ok (page_of (suc n) page query cb_func)

  with_page : Option ℕ → ℕ → List A → (A → B) → Reply B
  unfolding respond
  with_page none limit query cb_func = bad_request "Invalid pagination. \"page\" must be numeric"
  with_page (some page) limit query cb_func = respond limit page query cb_func

  with_limit : Option ℕ → Option ℕ → List A → (A → B) → Reply B
  unfolding with_page
  with_limit none page query cb_func = bad_request "Invalid pagination. \"limit\" must be numeric"
  with_limit (some limit) page query cb_func = with_page page limit query cb_func

  pub paginate_custom :
      (String → Option ℕ) → Option String → Option String → List A → (A → B) → Reply B
  unfolding int_arg with_limit
  paginate_custom int limit page query cb_func =
      with_limit (int_arg int limit 25) (int_arg int page 0) query cb_func
