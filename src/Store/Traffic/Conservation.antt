-- ===== src/Store/Traffic/Conservation.antt =====
-- Where the bytes of a batch go, in the loops of `IngestTrafficBatch`.
use poly_fleet.Base.{
  ℕ, ◌+◌, ◌≤◌, ◌≡◌, ◌∙◌, ◌⊎◌, refl, Bool-cases, some, List, [], ◌∷◌, inl, inr, Result, ok, err,
  find, count, total, total-update, count-update, Option-cases, arith,
}
use poly_fleet.Schema.{
  Db, BatchItem, User, Assignment, Node, is_user, is_assignment, is_node, Disposition,
}
use poly_fleet.Store.Traffic.Account.{
  TrafficDelta, charge, charge_user, charge_assignment, add_accounted_traffic, checked_add,
  insert_item, item_row, leave_unattributed, account_item, account_items, classify_traffic_item,
  is_accounted, Accounting, counted, overflowed, broken, after_charge,
}

-- The primary keys of the tables.
pub record HasKeys (db : Db) : Type 0 where
  pub users : (k : ℕ) → count (is_user k) db.users ≤ 1
  pub assignments : (node user : ℕ) → count (is_assignment node user) db.assignments ≤ 1
  pub nodes : (k : ℕ) → count (is_node k) db.nodes ≤ 1

abbrev pub user_bytes : Db → ℕ
user_bytes db = total (λ (u : User). u.traffic_used_bytes) db.users

abbrev pub assignment_bytes : Db → ℕ
assignment_bytes db = total (λ (a : Assignment). a.traffic_used_bytes) db.assignments

abbrev pub unattributed_bytes : Db → ℕ
unattributed_bytes db = total (λ (n : Node). n.traffic_unattributed_bytes) db.nodes

abbrev pub item_bytes : TrafficDelta → ℕ
item_bytes i = i.upload_bytes + i.download_bytes

-- From `db` with `before` bytes set aside to `db'` with `after`: `bytes` more are either charged, to
-- one user and to one assignment, or set aside.
pub record Accounts (bytes before : ℕ) (db : Db) (after : ℕ) (db' : Db) : Type 0 where
  pub users : user_bytes db' + after ≡ user_bytes db + before + bytes
  pub assignments : assignment_bytes db' + after ≡ assignment_bytes db + before + bytes
  pub nodes : db'.nodes ≡ db.nodes
  pub batches : db'.batches ≡ db.batches
  pub keys : HasKeys db'

module _ (node batch : ℕ) (item : TrafficDelta) (now : ℕ) (u : User) (a : Assignment) (db : Db)
    (keys : HasKeys db) (found_user : find (is_user item.user_id) db.users ≡ some u)
    (found_assignment : find (is_assignment node item.user_id) db.assignments ≡ some a) where
  charge-HasKeys : HasKeys (charge node batch item now u a db)
  unfolding charge
  charge-HasKeys = record {
    users = λ k.
        rw
          (count-update (is_user k) (is_user item.user_id)
            (charge_user item.upload_bytes item.download_bytes now) (λ x. refl) db.users)
          (keys.users k);
    assignments = λ n k.
        rw
          (count-update (is_assignment n k) (is_assignment node item.user_id)
            (charge_assignment item.upload_bytes item.download_bytes now) (λ x. refl)
            db.assignments)
          (keys.assignments n k);
    nodes = keys.nodes;
  }

  charge-Accounts :
      (before : ℕ) → Accounts (item_bytes item) before db before (charge node batch item now u a db)
  unfolding charge
  charge-Accounts before = record {
    users = omega (
      arith,
      total-update (is_user item.user_id) (charge_user item.upload_bytes item.download_bytes now)
          (λ (u : User). u.traffic_used_bytes) db.users found_user (keys.users item.user_id),
    );
    assignments = omega (
      arith,
      total-update (is_assignment node item.user_id)
          (charge_assignment item.upload_bytes item.download_bytes now)
          (λ (a : Assignment). a.traffic_used_bytes) db.assignments found_assignment
          (keys.assignments node item.user_id),
    );
    nodes = refl;
    batches = refl;
    keys = charge-HasKeys;
  }

add_accounted-Accounts :
    (node batch : ℕ) (item : TrafficDelta) (now before : ℕ) (db db' : Db)
    → HasKeys db
    → add_accounted_traffic node batch item now db ≡ ok db'
    → Accounts (item_bytes item) before db before db'
unfolding add_accounted_traffic
add_accounted-Accounts node batch item now before db db' keys h =
    elim (Option-cases (find (is_user item.user_id) db.users)) [
      | inl e ↦ absurd (ground arith)
      | inr (u, e) ↦ elim (Option-cases (find (is_assignment node item.user_id) db.assignments)) [
        | inl f ↦ absurd (ground arith)
        | inr (a, f) ↦ ground (arith, charge-Accounts node batch item now u a db keys e f before)
      ]
    ]

leave_unattributed-Accounts :
    (item : TrafficDelta) (before after : ℕ) (db db' : Db)
    → HasKeys db
    → leave_unattributed item before db ≡ counted after db'
    → Accounts (item_bytes item) before db after db'
unfolding leave_unattributed checked_add
leave_unattributed-Accounts item before after db db' keys h = ground arith

with_items-Accounts :
    (rows : List BatchItem) (before : ℕ) (db : Db)
    → HasKeys db
    → Accounts 0 before db before (record db { batch_items = rows })
with_items-Accounts rows before db keys = record {
  users = omega arith;
  assignments = omega arith;
  nodes = refl;
  batches = refl;
  keys = record { users = keys.users; assignments = keys.assignments; nodes = keys.nodes };
}

insert_item-Accounts :
    (node batch : ℕ) (item : TrafficDelta) (disposition : Disposition) (before : ℕ) (db db' : Db)
    → HasKeys db
    → insert_item node batch item disposition db ≡ ok db'
    → Accounts 0 before db before db'
unfolding insert_item
insert_item-Accounts node batch item disposition before db db' keys h = ground (
  arith,
  with_items-Accounts (item_row node batch item disposition ∷ db.batch_items) before db keys,
)

Accounts-trans :
    {b c d x y z : ℕ} {db db' db'' : Db}
    → b + c ≡ d
    → Accounts b x db y db'
    → Accounts c y db' z db''
    → Accounts d x db z db''
Accounts-trans e p q = record {
  users = omega (arith, p.users, q.users);
  assignments = omega (arith, p.assignments, q.assignments);
  nodes = q.nodes ∙ p.nodes;
  batches = q.batches ∙ p.batches;
  keys = q.keys;
}

after_charge_inv :
    (before after : ℕ) (r : Result Db) (db' : Db)
    → after_charge before r ≡ counted after db'
    → (r ≡ ok db') × (before ≡ after)
after_charge_inv before after (ok db) db' h = ground arith
after_charge_inv before after (err e) db' h = absurd (ground arith)

-- An item is recorded, and then charged or left unattributed.
pub account_item_inv :
    (node batch : ℕ) (item : TrafficDelta) (now before after : ℕ) (db db' : Db)
    → account_item node batch item now before db ≡ counted after db'
    → (mid : Db) × (insert_item node batch item (classify_traffic_item node item.user_id db) db
        ≡ ok mid)
      × (((add_accounted_traffic node batch item now mid ≡ ok db') × (before ≡ after))
          ⊎ (leave_unattributed item before mid ≡ counted after db'))
unfolding account_item
account_item_inv node batch item now before after db db' h =
    inserted (insert_item node batch item (classify_traffic_item node item.user_id db) db) refl
  where
    inserted :
        (r : Result Db)
        → insert_item node batch item (classify_traffic_item node item.user_id db) db ≡ r
        → (mid : Db) × (insert_item node batch item (classify_traffic_item node item.user_id db) db
            ≡ ok mid)
          × (((add_accounted_traffic node batch item now mid ≡ ok db') × (before ≡ after))
              ⊎ (leave_unattributed item before mid ≡ counted after db'))
    inserted (err x) e = absurd (ground arith)
    inserted (ok mid) e =
        elim (Bool-cases (is_accounted (classify_traffic_item node item.user_id db))) [
          | inl y ↦ (
            mid,
            e,
            inl (
                after_charge_inv before after (add_accounted_traffic node batch item now mid) db'
                  (ground arith)),
          )
          | inr n ↦ (mid, e, inr (ground arith))
        ]

pub account_item-Accounts :
    (node batch : ℕ) (item : TrafficDelta) (now before after : ℕ) (db db' : Db)
    → HasKeys db
    → account_item node batch item now before db ≡ counted after db'
    → Accounts (item_bytes item) before db after db'
account_item-Accounts node batch item now before after db db' keys h =
    let (mid, e, next) = account_item_inv node batch item now before after db db' h in
    let first = insert_item-Accounts node batch item _ before db mid keys e in
    Accounts-trans {c = item_bytes item} (omega arith) first (elim next [
      | inl (r, s) ↦
          rw (← s) (add_accounted-Accounts node batch item now before mid db' first.keys r)
      | inr l ↦ leave_unattributed-Accounts item before after mid db' first.keys l
    ])

abbrev pub batch_bytes : List TrafficDelta → ℕ
batch_bytes = total item_bytes

Accounts-refl : (before : ℕ) (db : Db) → HasKeys db → Accounts 0 before db before db
Accounts-refl before db keys = record {
  users = omega arith;
  assignments = omega arith;
  nodes = refl;
  batches = refl;
  keys = keys;
}

-- One round of the loop.
pub account_items_cons :
    (node batch : ℕ) (item : TrafficDelta) (items : List TrafficDelta) (now before after : ℕ)
    (db db' : Db)
    → account_items node batch (item ∷ items) now before db ≡ counted after db'
    → (between : ℕ) × (mid : Db) × (account_item node batch item now before db
        ≡ counted between mid)
      × (account_items node batch items now between mid ≡ counted after db')
unfolding account_items
account_items_cons node batch item items now before after db db' h =
    first (account_item node batch item now before db) refl
  where
    first :
        (r : Accounting)
        → account_item node batch item now before db ≡ r
        → (between : ℕ) × (mid : Db) × (account_item node batch item now before db
            ≡ counted between mid)
          × (account_items node batch items now between mid ≡ counted after db')
    first overflowed e = absurd (ground arith)
    first (broken x) e = absurd (ground arith)
    first (counted between mid) e = (between, mid, e, ground arith)

-- The loop charges or sets aside the bytes of all items.
pub account_items-Accounts :
    (node batch : ℕ) (items : List TrafficDelta) (now before after : ℕ) (db db' : Db)
    → HasKeys db
    → account_items node batch items now before db ≡ counted after db'
    → Accounts (batch_bytes items) before db after db'
unfolding account_items total
account_items-Accounts node batch [] now before after db db' keys h =
    ground (arith, Accounts-refl before db keys)
account_items-Accounts node batch (item ∷ items) now before after db db' keys h =
    let (between, mid, e, rest) =
      account_items_cons node batch item items now before after db db' h in
    let one = account_item-Accounts node batch item now before between db mid keys e in
    Accounts-trans {c = batch_bytes items} refl one
      (account_items-Accounts node batch items now between after mid db' one.keys rest)
