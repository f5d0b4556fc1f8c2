-- ===== src/BitcoinClient.antt =====
-- lib/cashweb-bitcoin-client/src/lib.rs. The JSON-RPC client and hexadecimal are parameters; strings are
-- lists of bytes. Both clients, over HTTP and over TLS, make the same calls.
use cashweb_backends.Common.{ℕ, List, [], ◌∷◌, Option, none, some, Bool, if◌then◌else◌}
use cashweb_backends.Common.Exec.{Outcome, ok, err, and_then, map_err, ok_or, unwrap}

pub data NodeError (RpcError JsonError FromHexError : Type 0) : Type 0 where
  rpc_connect_error : List ℕ → NodeError RpcError JsonError FromHexError
  rpc : RpcError → NodeError RpcError JsonError FromHexError
  json : JsonError → NodeError RpcError JsonError FromHexError
  empty_response : NodeError RpcError JsonError FromHexError
  hex_decode : FromHexError → NodeError RpcError JsonError FromHexError

-- The trait `BitcoinClient`.
pub record BitcoinClient : Type 1 where
  pub RpcError : Type 0
  pub JsonError : Type 0
  pub FromHexError : Type 0
  pub send_tx : List ℕ → Outcome (NodeError RpcError JsonError FromHexError) (List ℕ)
  pub get_new_addr : Outcome (NodeError RpcError JsonError FromHexError) (List ℕ)
  pub get_raw_transaction : List ℕ → Outcome (NodeError RpcError JsonError FromHexError) (List ℕ)

-- What the servers answer when the node fails: 400 for an error of the node itself.
abbrev pub node_status : {R J H : Type 0} → NodeError R J H → ℕ
node_status (rpc e) = 400
node_status (rpc_connect_error text) = 500
node_status (json e) = 500
node_status empty_response = 500
node_status (hex_decode e) = 500

pub record RpcResponse (RpcError JsonError : Type 0) : Type 0 where
  pub is_error : Bool
  pub error : Option RpcError
  -- `into_result::<String>()`
  pub result : Option (Outcome JsonError (List ℕ))

pub record JsonRpc : Type 1 where
  pub RpcError : Type 0
  pub JsonError : Type 0
  pub FromHexError : Type 0
  -- The method, and the parameter if there is one.
  pub send : List ℕ → Option (List ℕ) → Outcome (List ℕ) (RpcResponse RpcError JsonError)
  pub hex_encode : List ℕ → List ℕ
  pub hex_decode : List ℕ → Outcome FromHexError (List ℕ)

-- "getnewaddress"
abbrev pub getnewaddress : List ℕ
getnewaddress = 103 ∷ 101 ∷ 116 ∷ 110 ∷ 101 ∷ 119 ∷ 97 ∷ 100 ∷ 100 ∷ 114 ∷ 101 ∷ 115 ∷ 115 ∷ []

-- "sendrawtransaction"
abbrev pub sendrawtransaction : List ℕ
sendrawtransaction =
    115 ∷ 101 ∷ 110 ∷ 100 ∷ 114 ∷ 97 ∷ 119 ∷ 116 ∷ 114 ∷ 97 ∷ 110 ∷ 115 ∷ 97 ∷ 99 ∷ 116 ∷ 105 ∷ 111
    ∷ 110 ∷ []

-- "getrawtransaction"
abbrev pub getrawtransaction : List ℕ
getrawtransaction =
    103 ∷ 101 ∷ 116 ∷ 114 ∷ 97 ∷ 119 ∷ 116 ∷ 114 ∷ 97 ∷ 110 ∷ 115 ∷ 97 ∷ 99 ∷ 116 ∷ 105 ∷ 111 ∷ 110
    ∷ []

module _ (json_rpc : JsonRpc) where
  open json_rpc use {RpcError, JsonError, FromHexError, send, hex_encode}

  abbrev pub Error : Type 0
  Error = NodeError RpcError JsonError FromHexError

  -- `is_error`, and `error().unwrap()`
  abbrev pub check_error : RpcResponse RpcError JsonError → Outcome Error (Unit {0})
  check_error response =
      if response.is_error then (and_then (unwrap response.error) λ e. err (rpc e)) else ok tt

  abbrev pub result_of : RpcResponse RpcError JsonError → Outcome Error (List ℕ)
  result_of response =
      and_then (check_error response)
        λ u. and_then (ok_or response.result empty_response) λ result. map_err json result

  unfoldable pub request : List ℕ → Option (List ℕ) → Outcome Error (List ℕ)
  request name parameter =
      and_then (map_err rpc_connect_error (send name parameter)) λ response. result_of response

  unfoldable pub get_new_addr : Outcome Error (List ℕ)
  get_new_addr = request getnewaddress none

  unfoldable pub send_tx : List ℕ → Outcome Error (List ℕ)
  send_tx raw_tx = request sendrawtransaction (some (hex_encode raw_tx))

  unfoldable pub get_raw_transaction : List ℕ → Outcome Error (List ℕ)
  get_raw_transaction tx_id =
      and_then (request getrawtransaction (some (hex_encode tx_id)))
        λ tx_hex. map_err hex_decode (json_rpc.hex_decode tx_hex)

  unfoldable pub client : BitcoinClient
  client = record {
    RpcError = RpcError;
    JsonError = JsonError;
    FromHexError = FromHexError;
    send_tx = send_tx;
    get_new_addr = get_new_addr;
    get_raw_transaction = get_raw_transaction;
  }
