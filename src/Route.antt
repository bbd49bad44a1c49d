-- ===== src/Route.antt =====
-- clueapi/route: the radix tree that the router keeps, and the routes that it holds.
pub mod Path
pub mod Tree
