-- ===== src/Fs/Device/Tests.antt =====
-- A disk of 64 blocks of zeros, for the tests.
use potatoes.Prelude.{length-replicate}
use potatoes.Fs.Device.{Device, block_size}
use potatoes.Fs.Device.Laws.{IsDevice, zeros}

abbrev pub disk : Device
disk = record {
  hdsize = 64;
  sector = λ b. zeros;
  read_cache = record { block_nr = 0; cache = zeros };
  write_cache = record { block_nr = 0; cache = zeros };
}

pub disk-IsDevice : IsDevice disk
disk-IsDevice = record {
  sectors = λ b. length-replicate block_size 0;
  read_size = length-replicate block_size 0;
  write_size = length-replicate block_size 0;
}
