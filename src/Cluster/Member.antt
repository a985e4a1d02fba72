-- ===== src/Cluster/Member.antt =====
-- backend/pkg/cluster/member.go, lines 13 to 181: members, and what is read off a snapshot.
--
-- A node ID, and an address, is a number: the program only compares IDs, and numbers keep the order
-- of the strings. The empty string is 0, the least.
use Prim.Native.String.{String}
use text.Mathlib.Text.{◌==◌ as str_eq}
use swarm_communication.Prelude.{
  ℕ, suc, Bool, true, false, Option, none, some, List, [], ◌∷◌, ◌==◌, ◌&&◌, not, keep,
  if◌then◌else◌,
}
use swarm_communication.Prelude.Int.{ℤ}
use swarm_communication.Prelude.Map.{Map}
use swarm_communication.Health.{Float64}

abbrev pub NodeId : Type 0
NodeId = ℕ

abbrev pub NodeAddress : Type 0
NodeAddress = ℕ

pub data Role : Type 0 where
  worker leader : Role

abbrev pub eq_role : Role → Role → Bool
eq_role worker worker = true
eq_role leader leader = true
eq_role _ _ = false

-- Role.String
unfoldable pub role_string : Role → String
role_string leader = "leader"
role_string worker = "worker"

-- ParseRole: an unknown role is a worker.
unfoldable pub parse_role : String → Role
parse_role s = if str_eq s "leader" then leader else worker

pub data State : Type 0 where
  alive suspect dead : State

abbrev pub rank : State → ℕ
rank alive = 0
rank suspect = 1
rank dead = 2

abbrev pub eq_state : State → State → Bool
eq_state a b = rank a == rank b

-- State.String
unfoldable pub state_string : State → String
state_string suspect = "suspect"
state_string dead = "dead"
state_string alive = "alive"

-- ParseState: an unknown state is alive.
unfoldable pub parse_state : String → State
parse_state s = if str_eq s "suspect" then suspect else if str_eq s "dead" then dead else alive

pub record Member : Type 0 where
  pub id : NodeId
  pub addr : NodeAddress
  pub role : Role
  pub state : State
  pub incarnation : ℤ  -- int64
  pub score : Float64
  pub seq : ℕ  -- uint64

pub record View : Type 0 where
  pub members : List Member
  pub version : ℕ  -- uint64

abbrev pub ids : List Member → List NodeId
ids [] = []
ids (m ∷ ms) = m.id ∷ ids ms

abbrev pub is_alive : Member → Bool
is_alive m = eq_state m.state alive

abbrev pub is_alive_leader : Member → Bool
is_alive_leader m = eq_role m.role leader && eq_state m.state alive

-- View.Alive
unfoldable pub view_alive : View → List Member
view_alive v = keep is_alive v.members

unfoldable pub find_member : NodeId → List Member → Option Member
find_member k [] = none
find_member k (m ∷ ms) = if m.id == k then some m else find_member k ms

-- View.Get
unfoldable pub view_get : View → NodeId → Option Member
unfolding find_member
view_get v k = find_member k v.members

unfoldable pub member_scores : List Member → Map Float64
member_scores [] = []
member_scores (m ∷ ms) = (m.id, m.score) ∷ member_scores ms

-- View.Scores, over a snapshot, which has one member for each ID.
unfoldable pub view_scores : View → Map Float64
unfolding member_scores
view_scores v = member_scores v.members

-- View.Leaders; the nil result and the empty one are the same list here.
unfoldable pub view_leaders : View → List NodeId
view_leaders v = ids (keep is_alive_leader v.members)

-- View.Size
unfoldable pub count_alive : List Member → ℕ
count_alive [] = 0
count_alive (m ∷ ms) = if is_alive m then suc (count_alive ms) else count_alive ms

unfoldable pub view_size : View → ℕ
unfolding count_alive
view_size v = count_alive v.members

-- View.Addresses, as a list in the order of the members.
unfoldable pub view_addresses : List Member → List NodeAddress
view_addresses [] = []
view_addresses (m ∷ ms) =
    if not (eq_state m.state dead) && not (m.addr == 0)
    then m.addr ∷ view_addresses ms
    else view_addresses ms
