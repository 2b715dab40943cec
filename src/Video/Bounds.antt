-- ===== src/Video/Bounds.antt =====
-- How many parity shards UdpSender::send_frame adds.
use screx_v.Prelude.{ℕ, ◌+◌, ◌*◌, ◌≤◌, ◌≡◌, ◌⊎◌, arith}
use screx_v.Video.{actual_parity, parity_count}

-- For any number of data shards and any percentage: a frame has no parity shards, or it has at least
-- two data shards, between 1 and 127 parity shards, at most 255 shards in all, and its parity shards
-- are at least the percentage of the data shards unless there are 127 of them.
pub actual_parity_bounds :
    (data_count percent : ℕ)
    → (actual_parity data_count percent ≡ 0)
      ⊎ ((2 ≤ data_count)
          × (1 ≤ actual_parity data_count percent)
          × (actual_parity data_count percent ≤ 127)
          × (data_count + actual_parity data_count percent ≤ 255)
          × ((data_count * percent ≤ actual_parity data_count percent * 100)
              ⊎ (actual_parity data_count percent ≡ 127)))
unfolding actual_parity parity_count
actual_parity_bounds data_count percent = ground arith
