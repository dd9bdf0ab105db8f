-- ===== src/Store/Bids.antt =====
-- getProductBid of project3/src/vendor_client.cc. The calls of all vendors share one reply and one
-- status, which gRPC fills in `Next`, with what the call of the tag that it returns has ended with. A
-- price is a value of the parameter `Price`, as the code does nothing with it.
use advanced_os.Prelude.{
  ℕ, zero, suc, ◌+◌, ◌≡◌, Bool, true, false, Option, none, some, ◌>>=◌, List, [], ◌∷◌, ◌++◌,
  if◌then◌else◌, length,
}
use advanced_os.MapReduce.Text.{Text}

pub record BidReply (Price : Type 0) : Type 0 where
  pub price : Price
  pub vendor_id : Text

-- What happens behind the calls: a call ends, with a reply or with an error, or the second loop goes on
-- with its next round.
pub data Event (Price : Type 0) : Type 0 where
  ended : Option (BidReply Price) → Event Price
  round : Event Price

-- The variables of getProductBid; `cq` holds what the calls have ended with, in the order of their tags.
pub record Bidding (Price : Type 0) : Type 0 where
  pub reply : BidReply Price
  pub ok : Bool
  pub cq : List (Option (BidReply Price))
  pub product_bids : List (BidReply Price)

module _ {Price : Type 0} where
  -- `Next`, with a tag on the queue: a call that has failed leaves the reply as it is.
  unfoldable pub next_tag : Option (BidReply Price) → Bidding Price → Bidding Price
  next_tag none b = record b { ok = false }
  next_tag (some r) b = record b { reply = r; ok = true }

  -- the rest of the round
  unfoldable pub read_status : Bidding Price → Bidding Price
  read_status b = record b {
    product_bids = if b.ok then b.product_bids ++ b.reply ∷ [] else b.product_bids;
  }

  -- `none` where the round has to wait
  unfoldable pub bid_round : List (Option (BidReply Price)) → Bidding Price → Option (Bidding Price)
  unfolding next_tag read_status
  bid_round [] b = none
  bid_round (o ∷ cq) b = some (read_status (next_tag o (record b { cq = cq })))

  unfoldable pub bid_step : Event Price → Bidding Price → Option (Bidding Price)
  unfolding bid_round
  bid_step (ended o) b = some (record b { cq = b.cq ++ o ∷ [] })
  bid_step round b = bid_round b.cq b

  unfoldable pub get_product_bid : List (Event Price) → Bidding Price → Option (Bidding Price)
  unfolding bid_step
  get_product_bid [] b = some b
  get_product_bid (e ∷ es) b = bid_step e b >>= get_product_bid es

  -- Whether no round comes before a call has ended for it, where `k` tags are on the queue.
  abbrev pub in_time : ℕ → List (Event Price) → Bool
  in_time k [] = true
  in_time k (ended o ∷ es) = in_time (k + 1) es
  in_time zero (round ∷ es) = false
  in_time (suc k) (round ∷ es) = in_time k es

  abbrev pub rounds : List (Event Price) → ℕ
  rounds [] = 0
  rounds (ended o ∷ es) = rounds es
  rounds (round ∷ es) = rounds es + 1

  -- what the calls end with, in this order
  abbrev pub endings : List (Event Price) → List (Option (BidReply Price))
  endings [] = []
  endings (ended o ∷ es) = o ∷ endings es
  endings (round ∷ es) = endings es

  abbrev pub replies : List (Option (BidReply Price)) → List (BidReply Price)
  replies [] = []
  replies (none ∷ os) = replies os
  replies (some r ∷ os) = r ∷ replies os

  -- From within the loop: what is still to be read, and what the calls end with later.
  abbrev Read : List (Event Price) → List (Option (BidReply Price)) → Bidding Price → Type 0
  Read es q b =
      (b' : Bidding Price) × (get_product_bid es b ≡ some b')
      × (b'.product_bids ++ replies b'.cq ≡ b.product_bids ++ replies (q ++ endings es))
      × (length b'.cq + rounds es ≡ length q + length (endings es))
