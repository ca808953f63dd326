-- ===== src/Queries/CustomerRows.antt =====
-- The statements on `customers`: FindCustomerBySub, UpdateCustomerEmail, LinkCustomer. Both email
-- and cognito_sub are UNIQUE.
use doorbust.Base.{
  ℕ, String, Bool, false, Option, none, some, List, [], ◌∷◌, ◌++◌, not, ◌&&◌, ◌==◌, str_eq,
  if◌then◌else◌, find, update_first,
}
use doorbust.Store.{Db, Customer, Result, ok, err, no_rows, unique_violation}
use doorbust.Queries.Turns.{Query, Turn}
use doorbust.Queries.OrderRows.{is_found}

abbrev pub has_sub : String → Customer → Bool
has_sub sub c = elim c.cognito_sub [ none ↦ false | some s ↦ str_eq s sub ]

-- `cognito_sub = $1` holds of no row where $1 is NULL.
abbrev pub is_sub : Option String → Customer → Bool
is_sub none c = false
is_sub (some sub) c = has_sub sub c

abbrev pub has_email : String → Customer → Bool
has_email email c = str_eq c.email email

abbrev returning_found : Db → Option Customer → Result Customer × Db
returning_found db none = (err no_rows, db)
returning_found db (some c) = (ok c, db)

abbrev returning_customer : Db → Option (Customer × List Customer) → Result Customer × Db
returning_customer db none = (err no_rows, db)
returning_customer db (some (c, rows)) = (ok c, record db { customers = rows })

unfoldable pub find_customer_by_sub : Option String → Query Customer
find_customer_by_sub sub turn db = returning_found db (find (is_sub sub) db.customers)

-- UNIQUE (email) is tested for a row that is written.
unfoldable pub update_customer_email : ℕ → String → Query Customer
update_customer_email id email turn db =
    if is_found (find (λ c. c.id == id) db.customers)
      && is_found (find (λ c. has_email email c && not (c.id == id)) db.customers)
    then (err unique_violation, db)
    else returning_customer db
        (update_first (λ c. c.id == id) (λ c. record c { email = email }) db.customers)

abbrev coalesce : Option String → Option String → Option String
coalesce none sub = sub
coalesce (some s) sub = some s

abbrev pub adopt_sub : Option String → Customer → Customer
adopt_sub sub c = record c { cognito_sub = coalesce c.cognito_sub sub }

abbrev pub new_customer : String → Option String → Turn → Customer
new_customer email sub turn = record {
  id = turn.nextval;
  email = email;
  created_at = turn.now;
  cognito_sub = sub;
}

-- The row with the email takes the subject unless it has one; without such a row one is added.
-- Either way no other row may have the subject already.
link_row : String → Option String → Turn → Db → Option Customer → Result Customer × Db
link_row email sub turn db (some c) =
    if not (is_found c.cognito_sub) && is_found (find (is_sub sub) db.customers)
    then (err unique_violation, db)
    else returning_customer db (update_first (has_email email) (adopt_sub sub) db.customers)
link_row email sub turn db none =
    if is_found (find (is_sub sub) db.customers)
    then (err unique_violation, db)
    else if is_found (find (λ c. c.id == turn.nextval) db.customers)
    then (err unique_violation, db)
    else (
      ok (new_customer email sub turn),
      record db { customers = db.customers ++ new_customer email sub turn ∷ [] },
    )

unfoldable pub link_customer : String → Option String → Query Customer
unfolding link_row
link_customer email sub turn db = link_row email sub turn db (find (has_email email) db.customers)
