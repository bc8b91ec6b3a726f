-- ===== src/Mcp/Catalog/Order.antt =====
-- The order in which a server lists its tools does not matter.
use agent_verification_proto.Base.{String, List}
