-- ===== src/Json.antt =====
-- The JSON values and dictionaries that events are made of. Python's `dict` keeps its insertion
-- order, and so do these fields; every number that the modelled code puts in an event is a natural.
mod Defs
mod Laws
unfoldable pub use Defs.*
pub use Laws.*
