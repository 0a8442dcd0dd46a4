-- ===== src/Tests/Channels.antt =====
-- A webhook of the terminal channel and a settlement file of the tellers, on the sample council.
use acrev360_backend.Base.{
  ◌<◌, ◌≤◌, ◌≡◌, refl, inr, false, true, none, some, [], ◌∷◌, ◌⊎◌, same_text, arith,
}
use acrev360_backend.Base.Int.{◌+ℤ◌}
use acrev360_backend.Base.Table.{Table}
use acrev360_backend.Models.Billing.{bill_keyed, line_keyed}
use acrev360_backend.Models.Payments.{
  ApiClient, Payment, Channel, TxnStatus, feed_keyed, payment_keyed, client_keyed,
}
use acrev360_backend.Models.Ref.{bill_number, payment_number}
use acrev360_backend.Models.Tenancy.{Council}
use acrev360_backend.Models.Registry.{payer_keyed}
use acrev360_backend.Store.{answered, Db, ok, audit}
use acrev360_backend.Billing.Recompute.{recompute_bill, recomputed_status, settled_status}
use acrev360_backend.Enforcement.Close.{close_debt_case_for_bill}
use acrev360_backend.Payments.Fifo.{
  paid_amount, insert_by_position, by_position, fifo_loop, allocate_fifo,
}
use acrev360_backend.Payments.Post.{
  is_ref_taken, is_too_long, create_payment, credit_leftover, issue_receipt, close_if_paid,
  apply_to_bill, record_payment, post_payment,
}
use acrev360_backend.Channels.Adapters.{
  text, Body, object, hundredths, Python, Normalised, max_amount, validate, normalise, field_of,
  parse_amount, amount_of,
}
use acrev360_backend.Channels.Adapters.Laws.{validate-normalise}
use acrev360_backend.Channels.Clients.{verify_signature, first_signer, authenticate_webhook_client}
use acrev360_backend.Channels.Tenants.{
  until_slash, get, set_default, add_council, add_councils, bill_ref_prefix_map,
  resolve_council_from_bill_ref,
}
use acrev360_backend.Channels.Tenants.Laws.{PrintsBillRef, resolve_council-print}
use acrev360_backend.Channels.Receive.{
  Outcome, duplicate, posted, Gateway, Request, Response, recorded, unauthorised, mark_exception,
  mark_matched, bill_by_ref, post_received, receive, record_outcome, webhook_for, webhook, Tally,
  no_rows, settle_row, settle_rows, settlement_file,
}
use acrev360_backend.Channels.Receive.Ledger.{receive-posted, Posted}
use acrev360_backend.Channels.Receive.Files.{settlement_file-again}
use acrev360_backend.Channels.Receive.Access.{SignedBy, with_clients, webhook-signed}
use acrev360_backend.Channels.Receive.Again.{webhook-again, Unsigned}
use acrev360_backend.Tests.Sample.{
  env, council, config, db, from_ok, from_answered, sample-IsBalanced,
}

abbrev python : Python
python = record { decimal = λ s. some (hundredths 4000); int_text = λ n. "0"; strip = λ s. s }

abbrev gateway : Gateway
gateway = record {
  python = python;
  crypto = record { hmac = λ secret raw. secret; decrypt_secret = λ s. s };
  strict_signatures = true;
}

abbrev body : Body
body = object (
    ("rrn", text "T9")
    ∷ ("terminalId", text "X1")
    ∷ ("amount", text "40.00")
    ∷ ("billRef", text "KUJE/2026/000001")
    ∷ [])

abbrev request : Request
request = record { body = body; raw_body = "{}"; signature = some "s" }

abbrev notified : Normalised
notified = record { bank_txn_ref = "T9"; amount = 400000; bill_ref = "KUJE/2026/000001" }

valid : validate python (some Channel.pos) body ≡ inr tt
unfolding validate field_of amount_of parse_amount
valid = refl

validate-normalise_example :
    (n : Normalised) × (normalise python Channel.pos body ≡ some n)
    × (0 < n.amount)
    × (n.amount ≤ max_amount)
    × (same_text (python.strip n.bill_ref) "" ≡ false)
validate-normalise_example = validate-normalise python Channel.pos body valid

prints : PrintsBillRef env
prints prefix year id = ("2026/000001", refl)

resolve_council-print_example :
    resolve_council_from_bill_ref (env.print_ref (bill_number "KUJE" 2026 1)) db ≡ some council
resolve_council-print_example =
    resolve_council-print env council config 2026 1 db prints refl refl refl (λ e. refl, tt) refl
      refl

abbrev notified_payment : Payment
notified_payment = record {
  id = 1;
  council = 1;
  payment_ref = payment_number 1;
  bill = 1;
  channel = Channel.pos;
  terminal = none;
  amount = 400000;
  bank_txn_ref = "T9";
  txn_status = TxnStatus.confirmed;
  posted_by = none;
  geo_lat = none;
  geo_lng = none;
  created_on = 100;
}

abbrev received : Outcome × Db
unfolding receive post_received bill_by_ref mark_exception mark_matched post_payment record_payment
    create_payment apply_to_bill allocate_fifo fifo_loop paid_amount by_position insert_by_position
    recompute_bill recomputed_status settled_status credit_leftover issue_receipt close_if_paid
    close_debt_case_for_bill is_ref_taken is_too_long audit ◌+ℤ◌
received = from_ok (duplicate, db) (receive env 1 Channel.pos none notified db)

received-ok : receive env 1 Channel.pos none notified db ≡ ok (posted notified_payment, received.1)
unfolding received receive post_received bill_by_ref mark_exception mark_matched post_payment
    record_payment create_payment apply_to_bill allocate_fifo fifo_loop paid_amount by_position
    insert_by_position recompute_bill recomputed_status settled_status credit_leftover issue_receipt
    close_if_paid close_debt_case_for_bill is_ref_taken is_too_long audit ◌+ℤ◌
received-ok = refl

receive-posted_example : Posted env 1 Channel.pos none notified 2 db notified_payment received.1
receive-posted_example =
    receive-posted env 1 Channel.pos none notified db received.1 notified_payment sample-IsBalanced
      (omega arith) received-ok

abbrev hooked : Response × Db
unfolding webhook webhook_for record_outcome authenticate_webhook_client first_signer
    verify_signature resolve_council_from_bill_ref until_slash get set_default add_council
    add_councils bill_ref_prefix_map validate normalise field_of amount_of parse_amount receive
    post_received bill_by_ref mark_exception mark_matched post_payment record_payment create_payment
    apply_to_bill allocate_fifo fifo_loop paid_amount by_position insert_by_position recompute_bill
    recomputed_status settled_status credit_leftover issue_receipt close_if_paid
    close_debt_case_for_bill is_ref_taken is_too_long audit ◌+ℤ◌
hooked = from_ok (unauthorised, db) (webhook env gateway (some Channel.pos) request db)

hooked-ok :
    webhook env gateway (some Channel.pos) request db
    ≡ ok (recorded (posted notified_payment), hooked.1)
unfolding hooked webhook webhook_for record_outcome authenticate_webhook_client first_signer
    verify_signature resolve_council_from_bill_ref until_slash get set_default add_council
    add_councils bill_ref_prefix_map validate normalise field_of amount_of parse_amount receive
    post_received bill_by_ref mark_exception mark_matched post_payment record_payment create_payment
    apply_to_bill allocate_fifo fifo_loop paid_amount by_position insert_by_position recompute_bill
    recomputed_status settled_status credit_leftover issue_receipt close_if_paid
    close_debt_case_for_bill is_ref_taken is_too_long audit ◌+ℤ◌
hooked-ok = refl

webhook-signed_example :
    (hooked.1 ≡ db)
    ⊎ ((n : Normalised) × (c : Council) × (normalise python Channel.pos body ≡ some n)
        × (resolve_council_from_bill_ref n.bill_ref db ≡ some c)
        × SignedBy gateway Channel.pos request env c.id db)
webhook-signed_example =
    webhook-signed gateway Channel.pos request env db hooked.1 (recorded (posted notified_payment))
      refl hooked-ok

webhook-again_example :
    (r : Response) × (clients : Table ApiClient) × (n : Normalised) × (c : Council) × (normalise
        gateway.python Channel.pos request.body
      ≡ some n)
    × (resolve_council_from_bill_ref n.bill_ref db ≡ some c)
    × (webhook env gateway (some Channel.pos) request hooked.1
        ≡ ok (r, with_clients clients hooked.1))
    × ((r ≡ recorded duplicate)
        ⊎ ((r ≡ unauthorised)
            × (gateway.strict_signatures ≡ true)
            × Unsigned gateway Channel.pos request env c.id hooked.1))
webhook-again_example =
    webhook-again gateway Channel.pos request env env db hooked.1 (posted notified_payment)
      hooked-ok

abbrev row : Body
row = object (
    ("tellerRef", text "T7")
    ∷ ("branchCode", text "B1")
    ∷ ("amount", text "40.00")
    ∷ ("billRef", text "KUJE/2026/000001")
    ∷ [])

abbrev filed : Tally × Db
unfolding settlement_file settle_rows settle_row validate normalise field_of amount_of parse_amount
    receive post_received bill_by_ref mark_exception mark_matched post_payment record_payment
    create_payment apply_to_bill allocate_fifo fifo_loop paid_amount by_position insert_by_position
    recompute_bill recomputed_status settled_status credit_leftover issue_receipt close_if_paid
    close_debt_case_for_bill is_ref_taken is_too_long audit ◌+ℤ◌
filed = from_answered (no_rows, db) (settlement_file env python 1 1 (row ∷ row ∷ []) db)

filed-ok : settlement_file env python 1 1 (row ∷ row ∷ []) db ≡ answered filed
unfolding filed settlement_file settle_rows settle_row validate normalise field_of amount_of
    parse_amount receive post_received bill_by_ref mark_exception mark_matched post_payment
    record_payment create_payment apply_to_bill allocate_fifo fifo_loop paid_amount by_position
    insert_by_position recompute_bill recomputed_status settled_status credit_leftover issue_receipt
    close_if_paid close_debt_case_for_bill is_ref_taken is_too_long audit ◌+ℤ◌
filed-ok = refl

settlement_file-again_example :
    (t : Tally) × (settlement_file env python 1 1 (row ∷ row ∷ []) filed.1 ≡ answered (t, filed.1))
    × (t.posted ≡ 0)
settlement_file-again_example =
    settlement_file-again env python 1 1 (row ∷ row ∷ []) db filed.0 filed.1 filed-ok
