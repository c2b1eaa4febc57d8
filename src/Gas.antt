-- ===== src/Gas.antt =====
-- The global address space: GUIDs (libs/src/core/gas/guid.c), the route table that maps them to
-- objects (libs/src/core/gas/route_table.c), and the operations held back at an entry of it
-- (libs/src/core/gas/out_of_order_list.c).
pub mod Guid
pub mod OoList
pub mod RouteTable
