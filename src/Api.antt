-- ===== src/Api.antt =====
-- api/v1alpha1: the custom resources Ticket, Order and Quota, with the parts of the Kubernetes
-- objects that the program reads or writes. A pointer that may be nil is an `Option`; a map with
-- string keys is an association list, or an `Option` of one where the code tells nil from empty. What the program only copies (affinity, tolerations, topology
-- constraints) is kept as a text. A time or a duration is a number of nanoseconds.
pub mod Meta
pub mod Condition
pub mod Ticket
pub mod Order
pub mod Quota
