-- ===== src/ChannelIds.antt =====
-- src/channels.rs, `Inner::create`: the search for a free channel id. The channels themselves are
-- any type; making one and storing it is the caller's step.
pub mod Free
use lapin.Base.{
  ℕ, zero, suc, Bool, true, false, ◌&&◌, ◌||◌, Option, none, some, List, leb, ◌==◌, length, is_some,
  ℕ_discrete, if◌then◌else◌,
}
use lapin.Base.Dict
use lapin.Frame.{ChannelId}
use lapin.Sequence.{IdSequence, set_max, next}

abbrev pub channel_id_size : ℕ
channel_id_size = 65536

abbrev pub contains : {C : Type 0} → ChannelId → List (ChannelId × C) → Bool
contains id channels = is_some (Dict.get ℕ_discrete id channels)

-- The loop, on fuel: `none` means that the fuel ran out. The result is the id, or `none` where the
-- search has come back to the first id.
unfoldable pub search_id :
    {C : Type 0}
    → ℕ
    → ChannelId
    → Bool
    → ChannelId
    → List (ChannelId × C)
    → IdSequence
    → Option (Option ChannelId × IdSequence)
search_id zero first_id met_first_id id channels s = none
search_id (suc fuel) first_id met_first_id id channels s =
    let (id', s') = next channel_id_size s in
    let rest = search_id fuel first_id (met_first_id || (id == first_id)) id' channels s' in
    if (id == first_id) && met_first_id
    then some (none, s)
    else if contains id channels
    then rest
    else some (some id, s)

-- `none` inside is `ErrorKind::ChannelsLimitReached`.
unfoldable pub create_id :
    {C : Type 0}
    → ℕ
    → ℕ
    → List (ChannelId × C)
    → IdSequence
    → Option (Option ChannelId × IdSequence)
create_id fuel channel_max channels s =
    let bounded = set_max channel_max s in
    let (first_id, s') = next channel_id_size bounded in
    let found = search_id fuel first_id false first_id channels s' in
    if leb channel_max (length channels) then some (none, bounded) else found
