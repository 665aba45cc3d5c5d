-- ===== src/PipeId/Tests.antt =====
-- Tests of the checks of src/pipe_id.c.
use libusbp.Base.{false, arith}
use libusbp.Heap.{no_blocks}
use libusbp.Heap.Returns.{Returns}
use libusbp.PipeId.{check_pipe_id}
use libusbp.PipeId.Range.{Checked, check_pipe_id-Checked}
use libusbp.Samples.{heap_of}

check_pipe_id-Checked_example :
    Returns (Checked false 0x80 (heap_of no_blocks)) (check_pipe_id 0x80 (heap_of no_blocks))
check_pipe_id-Checked_example = check_pipe_id-Checked 0x80 (heap_of no_blocks) (omega arith)
