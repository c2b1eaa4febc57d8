-- ===== src/Utils.antt =====
-- The runtime's containers: the work-stealing deque (libs/src/core/utils/deque_simple.c) and the array
-- list (libs/src/core/utils/array_list.c); and the lock of libs/src/core/utils/atomics.c.
pub mod ArrayList
pub mod RwLock
pub mod Deque
