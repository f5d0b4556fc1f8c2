-- ===== src/KeyServer/PubSub/Handlers.antt =====
-- keyserver/src/pubsub/handlers.rs. The `HashMap` of burns is an association list, whose order does not
-- matter to the sum. An `i64` is its bit pattern; its sum wraps around, as in a release build.
use cashweb_backends.Common.{
  ℕ, ◌+◌, ◌-◌, ◌%◌, ◌^◌, List, [], ◌∷◌, ◌++◌, Bool, true, false, not, ◌&&◌, ◌||◌, if◌then◌else◌,
  length, take, drop, get_or, get_elem?, ltb, ◌==◌, bytes_eq, to_be_bytes, map, sum,
}
use cashweb_backends.Common.Exec.{
  Outcome, ok, err, panic, Exec, and_then, map_err, mapping_err, unwrap, unwrap_ok, lift, pure,
  ◌>>=◌, ◌>>◌,
}
use cashweb_backends.Http.{Response, with_body}
use cashweb_backends.Bitcoin.Transaction
use cashweb_backends.Bitcoin.Transaction.{Transaction}
use cashweb_backends.Bitcoin.Transaction.Output.{Output}
use cashweb_backends.Bitcoin.Transaction.Script.{is_op_return, is_empty}
use cashweb_backends.Bitcoin.Buf.{BufMut}
use cashweb_backends.Bitcoin.Buf.ByteVec.{ByteVec}
use cashweb_backends.Bitcoin.Transaction.SignatureHash.{transaction_id}
use cashweb_backends.Bitcoin.Transaction.Slices.{Slices, decode_tx}
use cashweb_backends.BitcoinClient.{BitcoinClient, NodeError}
use cashweb_backends.AuthWrapper.{AuthWrapper, BurnOutputs}
use cashweb_backends.RelayServer.Rocks.{Rocks}
use cashweb_backends.KeyServer.PubSub.{
  Text, Families, split_topic, any_empty, valid_topic, DbError, put_message, update_message,
  get_message, get_messages_to,
}

pub data Rejection (DecodeError Node Db : Type 0) : Type 0 where
  decode_error : DecodeError → Rejection DecodeError Node Db
  rpc_error : Node → Rejection DecodeError Node Db
  database_error : Db → Rejection DecodeError Node Db
  invalid_output_format invalid_output_commitment output_invalid invalid_topic_format :
      Rejection DecodeError Node Db
  transaction_invalid : Transaction.DecodeError → Rejection DecodeError Node Db

abbrev pub pond_prefix : List ℕ
pond_prefix = 80 ∷ 79 ∷ 78 ∷ 68 ∷ []

abbrev pub commitment_length : ℕ
commitment_length = 1 + 1 + 4 + 1 + 1 + 32

-- `BurnOutputsWithAmounts`
pub record Burn : Type 0 where
  pub outputs : BurnOutputs
  pub amount : ℕ

abbrev pub Burns : Type 0
Burns = List (List ℕ × Burn)

abbrev pub remove : List ℕ → Burns → Burns
remove key [] = []
remove key (entry ∷ burns) =
    let rest = remove key burns in if bytes_eq key entry.0 then rest else entry ∷ rest

unfoldable pub insert : List ℕ → Burn → Burns → Burns
insert key burn burns = (key, burn) ∷ remove key burns

abbrev pub amount_of : List ℕ × Burn → ℕ
amount_of entry = entry.1.amount

-- `.sum::<i64>()`
unfoldable pub total : Burns → ℕ
total burns = sum (map amount_of burns) % 2 ^ 64

abbrev pub outputs_of : List ℕ × Burn → BurnOutputs
outputs_of entry = entry.1.outputs

-- `if upvote { value } else { -value }`
abbrev pub signed : Bool → ℕ → ℕ
signed upvote value = if upvote then value else (2 ^ 64 - value) % 2 ^ 64

unfoldable pub is_burn_script : List ℕ → Bool
is_burn_script raw_script =
    (get_or raw_script 1 0 == 4)
    && (bytes_eq (take 4 (drop 2 raw_script)) pond_prefix
        && ((get_or raw_script 6 0 == 81 || get_or raw_script 6 0 == 0)
            && (get_or raw_script 7 0 == 32)))

module _ (slices : Slices) (client : BitcoinClient) (text : Text) {D : Type 0} (rocks : Rocks D)
    {DecodeError : Type 0} (decode_topic : List ℕ → Outcome DecodeError (List ℕ)) {W : Type 0}
    ⦃buf : BufMut W⦄ (vec : ByteVec W) where
  open client use {RpcError, JsonError, FromHexError}

  abbrev pub Error : Type 0
  Error = Rejection DecodeError (NodeError RpcError JsonError FromHexError) (DbError text rocks)

  -- The value as an `i64`.
  abbrev pub value_of : Output → Outcome Error ℕ
  value_of output = if ltb output.value (2 ^ 63) then ok output.value else err output_invalid

  unfoldable pub map_key : Transaction → ℕ → Outcome Error (List ℕ)
  map_key tx idx =
      and_then (unwrap_ok (transaction_id text.sha256 vec tx))
        λ txid. ok (txid ++ to_be_bytes 4 idx)

  -- The checks of the output, and whether it votes up.
  unfoldable pub check_output : List ℕ → Output → Outcome Error Bool
  check_output payload_digest output =
      if not (is_op_return output.script)
      then err invalid_output_format
      else if not (length output.script.raw == commitment_length)
      then err invalid_output_format
      else if not (is_burn_script output.script.raw)
      then err invalid_output_format
      else if not (bytes_eq payload_digest (take 32 (drop 8 output.script.raw)))
      then err invalid_output_commitment
      else ok (get_or output.script.raw 6 0 == 81)

  unfoldable pub add_burn : List ℕ → BurnOutputs → Burns → Outcome Error Burns
  add_burn payload_digest transaction burns =
      and_then (unwrap_ok (decode_tx slices transaction.tx)) λ tx.
        and_then (unwrap (get_elem? tx.outputs transaction.index)) λ output.
          and_then (check_output payload_digest output) λ upvote.
            and_then (value_of output) λ value. and_then (map_key tx transaction.index) λ key.
              ok (insert key (record { outputs = transaction; amount = signed upvote value }) burns)

  -- `for transaction in &message.transactions`
  unfoldable pub add_burns : List ℕ → List BurnOutputs → Burns → Outcome Error Burns
  add_burns payload_digest [] burns = ok burns
  add_burns payload_digest (transaction ∷ transactions) burns =
      and_then (add_burn payload_digest transaction burns)
        λ more. add_burns payload_digest transactions more

  unfoldable pub send_burns : List BurnOutputs → Outcome Error (Unit {0})
  send_burns [] = ok tt
  send_burns (burn ∷ burns) =
      and_then (map_err rpc_error (client.send_tx burn.tx)) λ id. send_burns burns

  -- A burn of a stored message, which was checked when it came.
  unfoldable pub merge_burn : BurnOutputs → Burns → Outcome Error Burns
  merge_burn transaction burns =
      and_then (map_err transaction_invalid (decode_tx slices transaction.tx)) λ tx.
        and_then (unwrap (get_elem? tx.outputs transaction.index)) λ output.
          and_then (unwrap (get_elem? output.script.raw 6)) λ vote.
            and_then (value_of output) λ value. and_then (map_key tx transaction.index) λ key. ok (
              insert key (record { outputs = transaction; amount = signed (vote == 81) value })
                burns)

  unfoldable pub merge_burns : List BurnOutputs → Burns → Outcome Error Burns
  merge_burns [] burns = ok burns
  merge_burns (transaction ∷ transactions) burns =
      and_then (merge_burn transaction burns) λ more. merge_burns transactions more

  unfoldable pub check_topic : List ℕ → Outcome Error (Unit {0})
  check_topic topic =
      if not (valid_topic text topic)
      then err invalid_topic_format
      else if ltb 10 (length (split_topic topic))
      then err invalid_topic_format
      else if any_empty (split_topic topic)
      then err invalid_topic_format
      else ok tt

  -- A vote has no payload, and its topic is not checked.
  abbrev pub check_payload : List ℕ → List ℕ → Outcome Error (Unit {0})
  check_payload payload topic = if is_empty payload then ok tt else check_topic topic

  abbrev pub no_burns : List BurnOutputs → Bool
  no_burns [] = true
  no_burns (transaction ∷ transactions) = false

  unfoldable pub with_digest : AuthWrapper → AuthWrapper
  with_digest message =
      if is_empty message.payload_digest
      then record message { payload_digest = text.sha256 message.payload }
      else message

  -- All that happens before the database is read: the topic and the burns.
  unfoldable pub accept : AuthWrapper → Outcome Error (List ℕ × Burns)
  accept message = and_then (map_err decode_error (decode_topic message.payload)) λ topic.
      and_then (check_payload message.payload topic) λ u.
        and_then (add_burns message.payload_digest message.transactions [])
          λ burns. and_then (send_burns message.transactions) λ v. ok (topic, burns)

  abbrev pub with_burns : AuthWrapper → Burns → AuthWrapper
  with_burns message burns = record message {
    transactions = map outputs_of burns;
    burn_amount = total burns;
  }

  unfoldable pub vote : AuthWrapper → Burns → Exec (Families D) Error Response
  vote wrapper burns = do
    merged ← lift (merge_burns wrapper.transactions burns)
    mapping_err database_error (update_message text rocks (with_burns wrapper merged))
    pure (with_body 200 [])

  unfoldable pub put_new : ℕ → List ℕ → AuthWrapper → Burns → Exec (Families D) Error Response
  put_new timestamp topic message burns = do
    mapping_err database_error
        (put_message text rocks timestamp topic (record message { burn_amount = total burns }))
    pure (with_body 200 [])

  -- `existing_value.is_ok() && message.payload.is_empty()`
  abbrev pub finish :
      ℕ
      → List ℕ
      → AuthWrapper
      → Burns
      → Bool
      → Outcome (DbError text rocks) AuthWrapper
      → Exec (Families D) Error Response
  finish timestamp topic message burns true (ok wrapper) = vote wrapper burns
  finish timestamp topic message burns true (err e) = put_new timestamp topic message burns
  finish timestamp topic message burns true panic = lift panic
  finish timestamp topic message burns false (ok wrapper) = put_new timestamp topic message burns
  finish timestamp topic message burns false (err e) = put_new timestamp topic message burns
  finish timestamp topic message burns false panic = lift panic

  unfoldable pub put_accepted : ℕ → AuthWrapper → List ℕ × Burns → Exec (Families D) Error Response
  put_accepted timestamp message accepted s =
      finish timestamp accepted.0 message accepted.1 (is_empty message.payload)
        (get_message text rocks message.payload_digest s) s

  unfoldable pub put_digested : ℕ → AuthWrapper → Exec (Families D) Error Response
  put_digested timestamp message = do
    accepted ← lift (accept message)
    put_accepted timestamp message accepted

  unfoldable pub handle_put : ℕ → AuthWrapper → Exec (Families D) Error Response
  handle_put timestamp message s =
      if no_burns message.transactions
      then (err invalid_output_format, s)
      else put_digested timestamp (with_digest message) s

  unfoldable pub handle_get : (AuthWrapper → List ℕ) → List ℕ → Families D → Outcome Error Response
  handle_get encode payload_digest s =
      and_then (map_err database_error (get_message text rocks payload_digest s))
        λ message. ok (with_body 200 (encode message))

  unfoldable pub handle_get_all :
      (List AuthWrapper → List ℕ) → List ℕ → ℕ → ℕ → Families D → Outcome Error Response
  handle_get_all encode topic from to s =
      and_then (map_err database_error (get_messages_to text rocks topic from to s))
        λ messages. ok (with_body 200 (encode messages))
