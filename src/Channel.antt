-- ===== src/Channel.antt =====
-- `BufferedChannel` of src/data_source/buffered_channel.rs. `sent` lists what has been broadcast so far.
pub mod Delivery
use hotshot_query_service.Prelude.{ℕ, List, [], ◌∷◌, ◌++◌, length, drop}

pub record BufferedChannel (T : Type 0) : Type 0 where
  pub pending : List T
  pub sent : List T

module _ {T : Type 0} where
  unfoldable pub init : BufferedChannel T
  init = record { pending = []; sent = [] }

  unfoldable pub push : BufferedChannel T → T → BufferedChannel T
  push c msg = record c { pending = c.pending ++ (msg ∷ []) }

  -- The loop of `flush`.
  unfoldable pub send_all : List T → BufferedChannel T → BufferedChannel T
  send_all [] c = c
  send_all (msg ∷ msgs) c = send_all msgs (record c { sent = c.sent ++ (msg ∷ []) })

  unfoldable pub flush : BufferedChannel T → BufferedChannel T
  unfolding send_all
  flush c = send_all c.pending (record c { pending = [] })

  unfoldable pub clear : BufferedChannel T → BufferedChannel T
  clear c = record c { pending = [] }

  -- A subscriber, as the number of messages that were broadcast before it.
  unfoldable pub subscribe : BufferedChannel T → ℕ
  subscribe c = length c.sent

  -- What the subscriber has received.
  unfoldable pub received : ℕ → BufferedChannel T → List T
  received since c = drop since c.sent
