-- ===== src/Memory/Tx.antt =====
-- memory.go and writer.go: a transaction as a state monad with errors. What was written before an
-- error stays written until the rollback. `ctx n` is what the n-th call of `ctx.Err()` reports, so
-- that a transaction may be cancelled at any point.
pub mod Rules
pub mod Leads
pub mod Values
pub mod Gives
use distledger.Base.{ℕ, ◌+◌, Bool, not, Option, none, some, List, [], ◌∷◌, ◌++◌, if◌then◌else◌}
use distledger.Base.Int.{ℤ, pos, ◌+ℤ◌, ◌==ℤ◌, leb_ℤ}
use distledger.Base.Maps.{◌==◌, insert}
use distledger.Clock.{Time}
use distledger.Account.{Account, LedgerEntry}
use distledger.Agent.{Agent, Binding}
use distledger.Commission.{Commission, Refund}
use distledger.Errors.{Err, Stop, stopped, Result, ok, err}
use distledger.Keys.{UserKey, OrderKey, int_eq, user_key_eq, order_key_eq}
use distledger.Memory.Data.{Data, IdemRef, DueRef, idem_ref_eq, due_less, same_due}
use distledger.Memory.Undo.{
  Undo, OrderedUndo, save, note_append_index, or_nil, note_append, note_structural,
}
use distledger.Withdrawal.{Withdrawal}

pub record TxState : Type 0 where
  pub store : Data
  pub undo : Undo
  pub ctx : ℕ → Option Stop
  pub checks : ℕ

abbrev pub Tx : Type 0 → Type 0
Tx A = TxState → Result A × TxState

module _ {A : Type 0} where
  unfoldable pub pure : A → Tx A
  pure a s = (ok a, s)

  unfoldable pub raise : Err → Tx A
  raise e s = (err e, s)

  unfoldable pub lift : Result A → Tx A
  lift r s = (r, s)

  unfoldable pub gets : (Data → A) → Tx A
  gets f s = (ok (f s.store), s)

module _ {A B : Type 0} where
  abbrev pub continue : Result A → (A → Tx B) → Tx B
  continue (ok a) f s = f a s
  continue (err e) f s = (err e, s)

  infixl 5 ◌>>=◌ ◌>>◌
  unfoldable pub ◌>>=◌ : Tx A → (A → Tx B) → Tx B
  unfolding pure raise lift gets
  ◌>>=◌ m f s = let (r, s') = m s in continue r f s'

  abbrev pub ◌>>◌ : Tx A → Tx B → Tx B
  m >> k = m >>= λ _. k

module _ {A : Type 0} where
  abbrev pub recovered : (Err → Bool) → (Err → Tx A) → Result A → Tx A
  recovered caught handler (ok a) s = (ok a, s)
  recovered caught handler (err e) s = if caught e then handler e s else (err e, s)

  -- `if errors.Is(err, …) { … } else if err != nil { return err }`
  unfoldable pub recover : (Err → Bool) → Tx A → (Err → Tx A) → Tx A
  recover caught m handler s = let (r, s') = m s in recovered caught handler r s'

module _ {A B : Type 0} where
  -- A split on what a read has found.
  unfoldable pub if_some : Option A → (A → Tx B) → Tx B → Tx B
  if_some none f m = m
  if_some (some a) f m = f a

abbrev pub Done : Type 0
Done = Unit {0}

-- `if b { return err }`
unfoldable pub raise_if : Bool → Err → Tx Done
raise_if b e s = (if b then err e else ok tt, s)

abbrev pub alive_result : Option Stop → Result Done
alive_result none = ok tt
alive_result (some e) = err (stopped e)

-- `if err := ctx.Err(); err != nil { return err }`
unfoldable pub check_ctx : Tx Done
check_ctx s = (alive_result (s.ctx s.checks), record s { checks = s.checks + 1 })

-- `if !ok { return err }`
unfoldable pub or_raise : {A : Type 0} → Option A → Err → Tx A
or_raise none e s = (err e, s)
or_raise (some a) e s = (ok a, s)

-- A change of the data and of the undo log.
abbrev write : (Data → Data) → (Data → Undo → Undo) → Tx Done
write f g s = (ok tt, record s { store = f s.store; undo = g s.store s.undo })

-- A `save…` or `note…` call with the assignment behind it.
unfoldable pub set_agent : UserKey → Agent → Tx Done
set_agent k v =
    write (λ d. record d { agents = insert k v d.agents })
      (λ d u. record u { agents = save k d.agents u.agents })

unfoldable pub set_binding : UserKey → Binding → Tx Done
set_binding k v =
    write (λ d. record d { bindings = insert k v d.bindings })
      (λ d u. record u { bindings = save k d.bindings u.bindings })

unfoldable pub set_account : UserKey → Account → Tx Done
set_account k v =
    write (λ d. record d { accounts = insert k v d.accounts })
      (λ d u. record u { accounts = save k d.accounts u.accounts })

unfoldable pub set_commission : ℤ → Commission → Tx Done
set_commission k v =
    write (λ d. record d { commissions = insert k v d.commissions })
      (λ d u. record u { commissions = save k d.commissions u.commissions })

unfoldable pub set_ledger : ℤ → LedgerEntry → Tx Done
set_ledger k v =
    write (λ d. record d { ledger = insert k v d.ledger })
      (λ d u. record u { ledger = save k d.ledger u.ledger })

unfoldable pub set_idem : IdemRef → ℤ → Tx Done
set_idem k v =
    write (λ d. record d { idem = insert k v d.idem })
      (λ d u. record u { idem = save k d.idem u.idem })

unfoldable pub set_refund : ℤ → Refund → Tx Done
set_refund k v =
    write (λ d. record d { refunds = insert k v d.refunds })
      (λ d u. record u { refunds = save k d.refunds u.refunds })

unfoldable pub set_refund_idem : IdemRef → ℤ → Tx Done
set_refund_idem k v =
    write (λ d. record d { refund_idem = insert k v d.refund_idem })
      (λ d u. record u { refund_idem = save k d.refund_idem u.refund_idem })

unfoldable pub set_withdrawal : ℤ → Withdrawal → Tx Done
set_withdrawal k v =
    write (λ d. record d { withdrawals = insert k v d.withdrawals })
      (λ d u. record u { withdrawals = save k d.withdrawals u.withdrawals })

unfoldable pub set_withdraw_idem : IdemRef → ℤ → Tx Done
set_withdraw_idem k v =
    write (λ d. record d { withdraw_idem = insert k v d.withdraw_idem })
      (λ d u. record u { withdraw_idem = save k d.withdraw_idem u.withdraw_idem })

unfoldable pub push_by_order : OrderKey → ℤ → Tx Done
push_by_order k x =
    write (λ d. record d { by_order = insert k (or_nil (d.by_order k) ++ x ∷ []) d.by_order })
      (λ d u. record u { by_order = note_append_index k d.by_order u.by_order })

unfoldable pub push_by_agent : UserKey → ℤ → Tx Done
push_by_agent k x =
    write (λ d. record d { by_agent = insert k (or_nil (d.by_agent k) ++ x ∷ []) d.by_agent })
      (λ d u. record u { by_agent = note_append_index k d.by_agent u.by_agent })

unfoldable pub push_refunds_by_order : OrderKey → ℤ → Tx Done
push_refunds_by_order k x =
    write
      (λ d. record d {
        refunds_by_order = insert k (or_nil (d.refunds_by_order k) ++ x ∷ []) d.refunds_by_order;
      })
      (λ d u. record u {
        refunds_by_order = note_append_index k d.refunds_by_order u.refunds_by_order;
      })

unfoldable pub push_ledger_by_user : UserKey → ℤ → Tx Done
push_ledger_by_user k x =
    write
      (λ d. record d {
        ledger_by_user = insert k (or_nil (d.ledger_by_user k) ++ x ∷ []) d.ledger_by_user;
      })
      (λ d u. record u { ledger_by_user = note_append_index k d.ledger_by_user u.ledger_by_user })

unfoldable pub push_ledger_by_tenant : ℤ → ℤ → Tx Done
push_ledger_by_tenant k x =
    write
      (λ d. record d {
        ledger_by_tenant = insert k (or_nil (d.ledger_by_tenant k) ++ x ∷ []) d.ledger_by_tenant;
      })
      (λ d u. record u {
        ledger_by_tenant = note_append_index k d.ledger_by_tenant u.ledger_by_tenant;
      })

-- Slices that only grow: their length at the start is all that the undo log keeps.
unfoldable pub push_ledger_id : ℤ → Tx Done
push_ledger_id x = write (λ d. record d { ledger_ids = d.ledger_ids ++ x ∷ [] }) (λ d u. u)

unfoldable pub push_commission_id : ℤ → Tx Done
push_commission_id x =
    write (λ d. record d { commission_ids = d.commission_ids ++ x ∷ [] }) (λ d u. u)

unfoldable pub push_withdrawal_id : ℤ → Tx Done
push_withdrawal_id x =
    write (λ d. record d { withdrawal_ids = d.withdrawal_ids ++ x ∷ [] }) (λ d u. u)

-- `d.nextID++` and the new value.
unfoldable pub fresh_id : Tx ℤ
fresh_id s =
    let id = s.store.next_id +ℤ pos 1 in
    (ok id, record s { store = record (s.store) { next_id = id } })

-- `sort.Search` on a sorted slice: the items before the first one that passes, and the rest.
unfoldable pub search_from : {T : Type 0} → (T → Bool) → List T → List T × List T
search_from p [] = ([], [])
search_from p (x ∷ xs) =
    let rest = search_from p xs in if p x then ([], x ∷ xs) else (x ∷ rest.0, rest.1)

-- What becomes of a sorted slice and its undo record.
abbrev pub Edit : Type 0 → Type 0
Edit T = List T × OrderedUndo T

abbrev pub appended : {T : Type 0} → T → List T → OrderedUndo T → Edit T
appended x xs u = (xs ++ x ∷ [], note_append u xs)

abbrev pub changed : {T : Type 0} → List T → List T → OrderedUndo T → Edit T
changed ys xs u = (ys, note_structural u xs)

abbrev pub place_due :
    DueRef → List DueRef × List DueRef → List DueRef → OrderedUndo DueRef → Edit DueRef
place_due ref (lo, []) xs u = appended ref xs u
place_due ref (lo, x ∷ hi) xs u = changed (lo ++ (ref ∷ x ∷ hi)) xs u

abbrev pub drop_due :
    DueRef → List DueRef × List DueRef → List DueRef → OrderedUndo DueRef → Edit DueRef
drop_due ref (lo, []) xs u = (xs, u)
drop_due ref (lo, x ∷ hi) xs u = if same_due x ref then changed (lo ++ hi) xs u else (xs, u)

abbrev pub place_account_id :
    UserKey → List UserKey × List UserKey → List UserKey → OrderedUndo UserKey → Edit UserKey
place_account_id key (lo, []) xs u = appended key xs u
place_account_id key (lo, x ∷ hi) xs u =
    if x == key then (xs, u) else changed (lo ++ (key ∷ x ∷ hi)) xs u

abbrev pub edit_due : (List DueRef → OrderedUndo DueRef → Edit DueRef) → Tx Done
edit_due f s =
    let (due, undo) = f s.store.pending_due s.undo.due in
    (
      ok tt,
      record s {
        store = record (s.store) { pending_due = due };
        undo = record (s.undo) { due = undo };
      },
    )

abbrev pub due_ref : ℤ → Time → ℤ → DueRef
due_ref tenant_id at id = record { tenant_id = tenant_id; at = at; id = id }

-- `insertDue`
unfoldable pub insert_due : ℤ → Time → ℤ → Tx Done
insert_due tenant_id at id =
    let ref = due_ref tenant_id at id in
    edit_due (λ xs u. place_due ref (search_from (λ x. not (due_less x ref)) xs) xs u)

-- `removeDue`
unfoldable pub remove_due : ℤ → Time → ℤ → Tx Done
remove_due tenant_id at id =
    let ref = due_ref tenant_id at id in
    edit_due (λ xs u. drop_due ref (search_from (λ x. not (due_less x ref)) xs) xs u)

abbrev pub account_at_least : UserKey → UserKey → Bool
account_at_least key x =
    if not (x.tenant_id ==ℤ key.tenant_id)
    then leb_ℤ key.tenant_id x.tenant_id
    else leb_ℤ key.user_id x.user_id

-- `insertAccountID`
unfoldable pub insert_account_id : UserKey → Tx Done
insert_account_id key s =
    let (ids, undo) =
      place_account_id key (search_from (account_at_least key) s.store.account_ids)
        s.store.account_ids s.undo.account_ids in
    (
      ok tt,
      record s {
        store = record (s.store) { account_ids = ids };
        undo = record (s.undo) { account_ids = undo };
      },
    )
