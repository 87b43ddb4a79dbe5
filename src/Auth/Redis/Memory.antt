-- ===== src/Auth/Redis/Memory.antt =====
-- A server in memory: what each key holds. It meets the laws.
use matata_backend.Common.{refl, Option, none, some, if◌then◌else◌}
use matata_backend.Auth.Redis.{Key, Entry, key_eq, incremented, expiring, aged, Redis, IsLawful}

abbrev pub memory_redis : Redis
memory_redis = record {
  State = Key → Option Entry;
  entry = λ st k. st k;
  set = λ k v s st j. if key_eq j k then some (record { value = v; ttl = some s }) else st j;
  delete = λ k st j. if key_eq j k then none else st j;
  incr = λ k st j. if key_eq j k then incremented (st k) else st j;
  expire = λ k s st j. if key_eq j k then expiring s (st k) else st j;
  wait = λ n st j. aged n (st j);
}

pub memory_redis-IsLawful : IsLawful memory_redis
memory_redis-IsLawful = record {
  entry-set = λ j k v s st. refl;
  entry-delete = λ j k st. refl;
  entry-incr = λ j k st. refl;
  entry-expire = λ j k s st. refl;
  entry-wait = λ j n st. refl;
}
