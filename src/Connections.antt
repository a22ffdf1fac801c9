-- ===== src/Connections.antt =====
-- crates/aether-controller/src/connections.rs: the channels to the connected agents.
-- The sending half of a channel is a number, and the generated token an argument. The waiters for
-- results, data and pongs are not modelled.
use aether_mesh.Base.{
  ℕ, ◌+◌, ◌%◌, Bool, false, List, [], ◌∷◌, ◌++◌, Option, none, some, length, get_elem?, u64_mod,
}
use aether_mesh.Base.Assoc.{lookup, contains_key, insert, remove, nat_eq}
use aether_mesh.Text.{Text, text_eq}
use aether_mesh.Task.{NodeId}

-- The part of `Inner` that concerns channels.
pub record Connections : Type 0 where
  pub senders : List (NodeId × ℕ)
  pub data_channels : List (NodeId × List ℕ)
  pub next_channel : List (NodeId × ℕ)
  pub channel_tokens : List (NodeId × Text)

unfoldable pub new : Connections
new = record { senders = []; data_channels = []; next_channel = []; channel_tokens = [] }

unfoldable pub attach : NodeId → ℕ → Text → Connections → Connections × Text
attach node_id sender token c = (
  record c {
    senders = insert node_id sender c.senders;
    channel_tokens = insert node_id token c.channel_tokens;
  },
  token,
)

-- The comparison of all bytes, folded, is equality.
abbrev pub matches : Option Text → Option Text → Bool
matches none presented = false
matches (some expected) none = false
matches (some expected) (some presented) = text_eq expected presented

unfoldable pub claim_channel_token : NodeId → Option Text → Connections → Bool
claim_channel_token node_id presented c = matches (lookup node_id c.channel_tokens) presented

abbrev pub or_empty : Option (List ℕ) → List ℕ
or_empty none = []
or_empty (some channels) = channels

unfoldable pub attach_data_channel : NodeId → ℕ → Connections → Connections
attach_data_channel node_id sender c = record c {
  data_channels =
      insert node_id (or_empty (lookup node_id c.data_channels) ++ (sender ∷ [])) c.data_channels;
}

unfoldable pub data_channel_count : NodeId → Connections → ℕ
data_channel_count node_id c = length (or_empty (lookup node_id c.data_channels))

unfoldable pub detach : NodeId → Connections → Connections
detach node_id c = record {
  senders = remove node_id c.senders;
  data_channels = remove node_id c.data_channels;
  next_channel = remove node_id c.next_channel;
  channel_tokens = remove node_id c.channel_tokens;
}

unfoldable pub is_connected : NodeId → Connections → Bool
is_connected node_id c = contains_key node_id c.senders

unfoldable pub connected_count : Connections → ℕ
connected_count c = length c.senders

abbrev pub or_zero : Option ℕ → ℕ
or_zero none = 0
or_zero (some cursor) = cursor

-- The channel on which `send_bulk` sends, with the cursor after it: a data channel where the node
-- offers one, and otherwise the control connection.
unfoldable pub bulk_channel : NodeId → Connections → Connections × Option ℕ
bulk_channel node_id c = elim (or_empty (lookup node_id c.data_channels)) [
  | [] ↦ (c, lookup node_id c.senders)
  | channel ∷ channels ↦
      let cursor = or_zero (lookup node_id c.next_channel) in
      (
        record c { next_channel = insert node_id ((cursor + 1) % u64_mod) c.next_channel },
        get_elem? (channel ∷ channels) (cursor % length (channel ∷ channels)),
      )
]
