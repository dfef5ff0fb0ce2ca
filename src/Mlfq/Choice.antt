-- ===== src/Mlfq/Choice.antt =====
-- Which process a pass of `scheduler` of projects/p2/p2b/xv6/xv6/kernel/proc.c runs, if it runs one.
