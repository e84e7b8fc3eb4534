-- ===== src/Waivers/RoundTrip.antt =====
-- waivers.py: a set of waivers written to a dictionary and read back.
use covsight_core.Prelude.{◌≡◌, ok, refl}
use covsight_core.Prelude.Json.{read_items-items_of}
use covsight_core.Waivers.{Waiver, WaiverSet, waiver_to_dict, waiver_from_dict, to_dict, from_dict}

waiver_back : (w : Waiver) → waiver_from_dict (waiver_to_dict w) ≡ ok w
unfolding waiver_from_dict waiver_to_dict
waiver_back w = refl

-- Every set of waivers is read back from its dictionary with all its waivers in their order.
from_dict-to_dict_waivers : (ws : WaiverSet) → from_dict (to_dict ws) ≡ ok ws
unfolding from_dict to_dict
from_dict-to_dict_waivers ws = read_items-items_of waiver_from_dict waiver_to_dict waiver_back ws
