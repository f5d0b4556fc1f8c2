-- ===== src/Bitcoin/Network.antt =====
-- lib/cashweb-bitcoin/src/lib.rs: the networks and their names.
use cashweb_backends.Common.{
  ℕ, ◌≡◌, ◌↔◌, ◌⊎◌, refl, sym, ap, ◌∙◌, List, [], ◌∷◌, Bool, true, false, if◌then◌else◌, bytes_eq,
  bytes_eq→eq, inl, inr,
}
use cashweb_backends.Common.Exec.{Outcome, ok, err}

pub data Network : Type 0 where
  mainnet testnet regtest : Network

pub data UnexpectedNetwork : Type 0 where
  unexpected_network : UnexpectedNetwork

-- `From<Network> for String`, which `ToString` repeats.
unfoldable pub to_string : Network → List ℕ
to_string mainnet = 109 ∷ 97 ∷ 105 ∷ 110 ∷ 110 ∷ 101 ∷ 116 ∷ []
to_string testnet = 116 ∷ 101 ∷ 115 ∷ 116 ∷ 110 ∷ 101 ∷ 116 ∷ []
to_string regtest = 114 ∷ 101 ∷ 103 ∷ 116 ∷ 101 ∷ 115 ∷ 116 ∷ []

-- The three arms in turn.
unfoldable pub try_from : List ℕ → Outcome UnexpectedNetwork Network
try_from network =
    if bytes_eq network (to_string mainnet)
    then ok mainnet
    else if bytes_eq network (to_string testnet)
    then ok testnet
    else if bytes_eq network (to_string regtest)
    then ok regtest
    else err unexpected_network

-- Which arm was taken.
taken :
    (a b c : Bool) (network : Network)
    → (if a
        then ok mainnet
        else if b
        then ok testnet
        else if c
        then ok regtest
        else err unexpected_network)
      ≡ ok network
    → ((a ≡ true) × (network ≡ mainnet))
      ⊎ (((b ≡ true) × (network ≡ testnet)) ⊎ ((c ≡ true) × (network ≡ regtest)))
taken true b c network h = inl (refl, cc h)
taken false true c network h = inr (inl (refl, cc h))
taken false false true network h = inr (inr (refl, cc h))
taken false false false network h = cc h

to_string-try_from : (network : Network) → try_from (to_string network) ≡ ok network
unfolding try_from to_string
to_string-try_from mainnet = refl
to_string-try_from testnet = refl
to_string-try_from regtest = refl

-- A string is taken for a network exactly when it is the network's name.
pub try_from_iff :
    (text : List ℕ) (network : Network) → (try_from text ≡ ok network) ↔ (text ≡ to_string network)
unfolding try_from
try_from_iff text network = (
  λ h.
      elim (taken (bytes_eq text (to_string mainnet)) (bytes_eq text (to_string testnet))
        (bytes_eq text (to_string regtest)) network h) [
          | inl (e, n) ↦ bytes_eq→eq text (to_string mainnet) e ∙ ap to_string (sym n)
          | inr (inl (e, n)) ↦ bytes_eq→eq text (to_string testnet) e ∙ ap to_string (sym n)
          | inr (inr (e, n)) ↦ bytes_eq→eq text (to_string regtest) e ∙ ap to_string (sym n)
        ],
  λ e. ap try_from e ∙ to_string-try_from network,
)
