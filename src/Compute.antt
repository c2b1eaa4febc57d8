-- ===== src/Compute.antt =====
-- libs/src/core/compute/edt.c and libs/src/core/gas/out_of_order.c: the life of a task (EDT) on its node.
pub mod Buffer
pub mod Edt
pub mod Pool
