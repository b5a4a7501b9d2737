-- ===== src/Elements/Links.antt =====
-- The links of exordos_core/elements/dm/utils.py: `clear_parameters` and `ResourceLink`.
pub mod Laws
use genesis_core.Common.{ℕ}
use genesis_core.Common.Text.{Text, Parts, split, join, last_from, map_last}

abbrev pub dot : ℕ
dot = b'.'

abbrev pub colon : ℕ
colon = b':'

-- `part.split(":")[0]`
unfoldable pub before_colon : Text → Text
before_colon part = (split colon part).0

unfoldable pub clear_parameters : Text → Text
clear_parameters link = join dot (map_last before_colon (split dot link))

-- `ResourceLink.location` and `ResourceLink.parameter`.
unfoldable pub location : Text → Text
location link = clear_parameters link

unfoldable pub parameter : Text → Text
parameter link = let (part, parts) = split dot link in last_from part parts
